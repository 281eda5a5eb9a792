-- ===== src/Worker/Outbox/Claims.antt =====
-- Which event `claim` of app/worker.py takes.
use moneybee_backend.Base.{
  ◌+◌, ◌≤◌, ◌<◌, ◌⊎◌, arith, Bool-cases, [], ◌∷◌, put, contains, inl, inr, sym, ap, ◌∙◌, ℕ, ◌≡◌,
  refl, String, true, false, not, ◌||◌, Option, none, some, List, All, IsKeyed, leb,
}
use moneybee_backend.Worker.Outbox.{
  OutboxStatus, OutboxEvent, OutboxDb, is_waiting, is_due, is_over, event_row, claimable, claimed,
  or_now, claim,
}
use moneybee_backend.Worker.Outbox.Takes.{Takes, claim-Takes}

-- a time that is not set, or has come
abbrev pub HasCome : ℕ → Option ℕ → Type 0
HasCome now none = Unit {0}
HasCome now (some t) = t ≤ now

-- a lease that is not set, or has run out
abbrev pub HasRunOut : ℕ → Option ℕ → Type 0
HasRunOut now none = Unit {0}
HasRunOut now (some t) = t < now

-- The event is pending or to be retried, its next attempt is due, no lease on it runs, and no other
-- transaction holds it.
abbrev pub IsClaimable : ℕ → List ℕ → OutboxEvent → Type 0
IsClaimable now locked e =
    ((e.status ≡ OutboxStatus.pending) ⊎ (e.status ≡ OutboxStatus.retry))
    × HasCome now e.next_attempt_at
    × HasRunOut now e.lease_expires_at
    × (contains e.id locked ≡ false)

is_waiting_lem :
    (s : OutboxStatus) → is_waiting s ≡ true → (s ≡ OutboxStatus.pending) ⊎ (s ≡ OutboxStatus.retry)
is_waiting_lem OutboxStatus.pending h = inl refl
is_waiting_lem OutboxStatus.retry h = inr refl
is_waiting_lem OutboxStatus.leased h = cc
is_waiting_lem OutboxStatus.delivered h = cc
is_waiting_lem OutboxStatus.dead h = cc

waiting_is :
    (s : OutboxStatus)
    → ((s ≡ OutboxStatus.pending) ⊎ (s ≡ OutboxStatus.retry))
    → is_waiting s ≡ true
waiting_is s (inl e) = rw e refl
waiting_is s (inr e) = rw e refl

is_due-HasCome : (now : ℕ) (o : Option ℕ) → is_due now o ≡ true → HasCome now o
is_due-HasCome now none h = tt
is_due-HasCome now (some t) h = ground arith

HasCome-is_due : (now : ℕ) (o : Option ℕ) → HasCome now o → is_due now o ≡ true
HasCome-is_due now none h = refl
HasCome-is_due now (some t) h = ground arith

is_over-HasRunOut : (now : ℕ) (o : Option ℕ) → is_over now o ≡ true → HasRunOut now o
is_over-HasRunOut now none h = tt
is_over-HasRunOut now (some t) h = ground arith

HasRunOut-is_over : (now : ℕ) (o : Option ℕ) → HasRunOut now o → is_over now o ≡ true
HasRunOut-is_over now none h = refl
HasRunOut-is_over now (some t) h = ground arith

claimable-IsClaimable :
    (now : ℕ) (locked : List ℕ) (e : OutboxEvent)
    → claimable now locked e ≡ true
    → IsClaimable now locked e
unfolding claimable
claimable-IsClaimable now locked e h = (
  is_waiting_lem e.status (ground arith),
  is_due-HasCome now e.next_attempt_at (ground arith),
  is_over-HasRunOut now e.lease_expires_at (ground arith),
  ground arith,
)

IsClaimable-claimable :
    (now : ℕ) (locked : List ℕ) (e : OutboxEvent)
    → IsClaimable now locked e
    → claimable now locked e ≡ true
unfolding claimable
IsClaimable-claimable now locked e (waits, come, over, free) =
    rw
      (
        waiting_is e.status waits,
        HasCome-is_due now e.next_attempt_at come,
        HasRunOut-is_over now e.lease_expires_at over,
        free,
      )
      refl

-- the first attempt stays the first
abbrev pub KeepsFirst : ℕ → Option ℕ → Option ℕ → Type 0
KeepsFirst now none after = after ≡ some now
KeepsFirst now (some t) after = after ≡ some t

-- `e'` is `e` under a lease of a minute, with one more attempt made now, to the one provider.
pub record IsLeased (worker : String) (now : ℕ) (e e' : OutboxEvent) : Type 0 where
  pub status : e'.status ≡ OutboxStatus.leased
  pub lease_owner : e'.lease_owner ≡ some worker
  pub lease_expires_at : e'.lease_expires_at ≡ some (now + 60)
  pub attempt_count : e'.attempt_count ≡ e.attempt_count + 1
  pub first_attempt_at : KeepsFirst now e.first_attempt_at e'.first_attempt_at
  pub last_attempt_at : e'.last_attempt_at ≡ some now
  pub provider : e'.provider ≡ some "codestra"
  pub destination : e'.destination ≡ some "codestra:event-ingress"
  pub id : e'.id ≡ e.id
  pub aggregate_id : e'.aggregate_id ≡ e.aggregate_id
  pub is_public : e'.is_public ≡ e.is_public
  pub correlation_id : e'.correlation_id ≡ e.correlation_id
  pub created_at : e'.created_at ≡ e.created_at
  pub next_attempt_at : e'.next_attempt_at ≡ e.next_attempt_at
  pub delivered_at : e'.delivered_at ≡ e.delivered_at
  pub last_http_status : e'.last_http_status ≡ e.last_http_status
  pub last_error_code : e'.last_error_code ≡ e.last_error_code
  pub last_error : e'.last_error ≡ e.last_error

or_now-KeepsFirst : (now : ℕ) (o : Option ℕ) → KeepsFirst now o (or_now o now)
or_now-KeepsFirst now none = refl
or_now-KeepsFirst now (some t) = refl

claimed-IsLeased :
    (worker : String) (now : ℕ) (e : OutboxEvent) → IsLeased worker now e (claimed worker now e)
claimed-IsLeased worker now e = record {
  status = refl;
  lease_owner = refl;
  lease_expires_at = refl;
  attempt_count = refl;
  first_attempt_at = or_now-KeepsFirst now e.first_attempt_at;
  last_attempt_at = refl;
  provider = refl;
  destination = refl;
  id = refl;
  aggregate_id = refl;
  is_public = refl;
  correlation_id = refl;
  created_at = refl;
  next_attempt_at = refl;
  delivered_at = refl;
  last_http_status = refl;
  last_error_code = refl;
  last_error = refl;
}

-- What a claim promises, without the words of the code: no event can be claimed and nothing changes,
-- or the oldest of those that can is leased, and only its row changes.
abbrev pub Claims : String → ℕ → List ℕ → OutboxDb → Option ℕ × OutboxDb → Type 0
Claims worker now locked db (none, db') =
    (db' ≡ db) × All (λ (e : OutboxEvent). ¬ IsClaimable now locked e) db.events
Claims worker now locked db (some k, db') =
    (e e' : OutboxEvent) × (event_row k db.events ≡ some e)
    × IsClaimable now locked e
    × All (λ (f : OutboxEvent). (¬ IsClaimable now locked f) ⊎ (e.created_at ≤ f.created_at))
        db.events
    × IsLeased worker now e e'
    × (db'.events ≡ put (λ (x : OutboxEvent). x.id) e' db.events)
    × (db'.integration_events ≡ db.integration_events)
    × (db'.exhausted ≡ db.exhausted)
    × (db'.audit ≡ db.audit)

none_claimable :
    (now : ℕ) (locked : List ℕ) (es : List OutboxEvent)
    → All (λ (e : OutboxEvent). claimable now locked e ≡ false) es
    → All (λ (e : OutboxEvent). ¬ IsClaimable now locked e) es
none_claimable now locked [] h = tt
none_claimable now locked (e ∷ es) h = (
  (λ can. cc (sym (IsClaimable-claimable now locked e can) ∙ h.0)),
  none_claimable now locked es h.1,
)

oldest_claimable :
    (now created : ℕ) (locked : List ℕ) (es : List OutboxEvent)
    → All
        (λ (f : OutboxEvent). (not (claimable now locked f) || leb created f.created_at) ≡ true)
        es
    → All (λ (f : OutboxEvent). (¬ IsClaimable now locked f) ⊎ (created ≤ f.created_at)) es
oldest_claimable now created locked [] h = tt
oldest_claimable now created locked (f ∷ es) h = (
  elim (Bool-cases (claimable now locked f)) [
    | inl can ↦ inr (ground (arith, h.0))
    | inr cannot ↦ inl (λ can. cc (sym (IsClaimable-claimable now locked f can) ∙ cannot))
  ],
  oldest_claimable now created locked es h.1,
)

Takes-Claims :
    (worker : String) (now : ℕ) (locked : List ℕ) (db : OutboxDb) (r : Option ℕ × OutboxDb)
    → Takes worker now locked db r
    → Claims worker now locked db r
Takes-Claims worker now locked db (none, db') (same, none_can) =
    (same, none_claimable now locked db.events none_can)
Takes-Claims worker now locked db (some k, db') (e, found, can, first, saved) = (
  e,
  claimed worker now e,
  found,
  claimable-IsClaimable now locked e can,
  oldest_claimable now e.created_at locked db.events first,
  claimed-IsLeased worker now e,
  ap (λ (d : OutboxDb). d.events) saved,
  ap (λ (d : OutboxDb). d.integration_events) saved,
  ap (λ (d : OutboxDb). d.exhausted) saved,
  ap (λ (d : OutboxDb). d.audit) saved,
)

-- With unique event ids and an open gate: `claim` returns no id and changes nothing, and no event can
-- be claimed; or it returns the id of the oldest event that can, one that is pending or to be retried,
-- due, under no running lease and not locked. This event is then leased to the worker for 60 seconds
-- with one more attempt, made now, and the provider and destination of the outbox; its other columns
-- and all other rows are as before.
pub claim-Claims :
    (worker : String) (now : ℕ) (locked : List ℕ) (db : OutboxDb)
    → IsKeyed (λ (x : OutboxEvent). x.id) db.events
    → Claims worker now locked db (claim true worker now locked db)
claim-Claims worker now locked db keyed =
    Takes-Claims worker now locked db (claim true worker now locked db)
      (claim-Takes worker now locked db keyed)
