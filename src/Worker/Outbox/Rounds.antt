-- ===== src/Worker/Outbox/Rounds.antt =====
-- How much work the outbox can still cause: turns of the loop of `run` in app/worker.py.
use moneybee_backend.Base.{
  ℕ, ◌+◌, ◌-◌, ◌≤◌, ◌<◌, ◌⊎◌, length, ◌≡◌, refl, arith, String, Bool, true, false, Option, none,
  some, List, [], ◌∷◌, All, put, IsKeyed, rows_with, rows_with-put, row-put_self, key-row, sum_rows,
  sum_rows-put, equal_refl, Bool-cases, inl, inr, leb, if◌then◌else◌, subst, sym, ap,
}
use moneybee_backend.Base.Text.{String-discrete}
use moneybee_backend.Worker.Outbox.{
  OutboxEvent, OutboxDb, event_row, save_event, is_waiting, claimable, claimed, claim,
  PublishAnswer, published, failed, ask, settle_delivery, deliver, Turn, deliver_claimed,
  outbox_turn, delivered_event, failed_event, Failure,
}
use moneybee_backend.Worker.Outbox.Takes.{Takes, claim-Takes}

-- the deliveries that an event can still get while the gate stays open
abbrev pub attempts_left : OutboxEvent → ℕ
attempts_left e =
    if is_waiting e.status then (if leb 8 e.attempt_count then 1 else 8 - e.attempt_count) else 0

abbrev pub potential : OutboxDb → ℕ
potential db = sum_rows (λ (e : OutboxEvent). e.id) attempts_left db.events

abbrev pub HasIds : OutboxDb → Type 0
HasIds db = IsKeyed (λ (e : OutboxEvent). e.id) db.events

-- a turn that did work leaves less to do, and one that did none found nothing to claim
abbrev pub Turns : Turn → OutboxDb → Bool × OutboxDb → Type 0
Turns turn db (true, db') = (potential db' + 1 ≤ potential db) × HasIds db'
Turns turn db (false, db') =
    (db' ≡ db) × All (λ (e : OutboxEvent). claimable turn.now turn.locked e ≡ false) db.events

attempts_left-claimable :
    (now : ℕ) (locked : List ℕ) (e : OutboxEvent)
    → claimable now locked e ≡ true
    → is_waiting e.status ≡ true
unfolding claimable
attempts_left-claimable now locked e h = ground arith

failed-le :
    (worker : String) (now now' : ℕ) (f : Failure) (e : OutboxEvent)
    → is_waiting e.status ≡ true
    → attempts_left (failed_event now f (claimed worker now' e)) + 1 ≤ attempts_left e
failed-le worker now now' f e waits = elim (Bool-cases (leb 8 (e.attempt_count + 1))) [
  | inl last ↦ rw (last, waits) (ground arith)
  | inr more ↦ rw (more, waits) (ground arith)
]

module _ (worker : String) (now : ℕ) (e : OutboxEvent) (db : OutboxDb)
    (found : event_row e.id db.events ≡ some e) (keyed : HasIds db) where
  after_claim : OutboxDb
  after_claim = save_event (claimed worker now e) db

  -- what the two saves of a turn do to the sum
  potential_saved :
      (x : OutboxEvent)
      → x.id ≡ e.id
      → attempts_left x + 1 ≤ attempts_left e
      → sum_rows
            (λ (y : OutboxEvent). y.id)
            attempts_left
            (put (λ (y : OutboxEvent). y.id) x after_claim.events)
          + 1
        ≤ potential db
  unfolding after_claim
  potential_saved x same less =
      let key : OutboxEvent → ℕ = λ y. y.id in
      let first =
        sum_rows-put key attempts_left (claimed worker now e) e db.events found (keyed e.id) in
      let there : event_row x.id after_claim.events ≡ some (claimed worker now e) =
        subst (λ k. event_row k after_claim.events ≡ some (claimed worker now e)) (sym same)
          (row-put_self key (claimed worker now e) e db.events found) in
      let second =
        sum_rows-put key attempts_left x (claimed worker now e) after_claim.events there (
          subst (λ n. n ≤ 1) (sym (rows_with-put key x.id (claimed worker now e) db.events))
            (keyed x.id)) in
      omega (arith, first, second, less)

  saved-HasIds :
      (x : OutboxEvent) (k : ℕ)
      → rows_with
          (λ (y : OutboxEvent). y.id)
          k
          (put (λ (y : OutboxEvent). y.id) x after_claim.events)
        ≤ 1
  unfolding after_claim
  saved-HasIds x k =
      let key : OutboxEvent → ℕ = λ y. y.id in
      omega (
        arith,
        rows_with-put key k x (put key (claimed worker now e) db.events),
        rows_with-put key k (claimed worker now e) db.events,
        keyed k,
      )

  settle_delivery-Turns :
      (turn : Turn) (answer : PublishAnswer)
      → is_waiting e.status ≡ true
      → Turns turn db (true, settle_delivery turn.now answer (claimed worker now e) after_claim)
  unfolding settle_delivery
  settle_delivery-Turns turn (published p x) waits = (
    potential_saved (delivered_event turn.now (claimed worker now e)) refl
        (rw waits (ground arith)),
    λ k. saved-HasIds (delivered_event turn.now (claimed worker now e)) k,
  )
  settle_delivery-Turns turn (failed f) waits = (
    potential_saved (failed_event turn.now f (claimed worker now e)) refl
        (failed-le worker turn.now now f e waits),
    λ k. saved-HasIds (failed_event turn.now f (claimed worker now e)) k,
  )

  deliver-Turns :
      (turn : Turn)
      → is_waiting e.status ≡ true
      → Turns turn db
          (true, deliver true worker turn.crm_write turn.now turn.answer e.id after_claim)
  unfolding deliver after_claim
  deliver-Turns turn waits =
      rw
        (
          row-put_self (λ (y : OutboxEvent). y.id) (claimed worker now e) e db.events found,
          equal_refl String-discrete worker,
        )
        (settle_delivery-Turns turn (ask turn.crm_write turn.answer) waits)

deliver_claimed-Turns :
    (worker : String) (turn : Turn) (db : OutboxDb) (r : Option ℕ × OutboxDb)
    → HasIds db
    → Takes worker turn.now turn.locked db r
    → Turns turn db (deliver_claimed worker turn r)
unfolding after_claim
deliver_claimed-Turns worker turn db (none, db') keyed h = h
deliver_claimed-Turns worker turn db (some k, db') keyed (e, found, passes, first, same) =
    let at_k = key-row (λ (y : OutboxEvent). y.id) k e db.events found in
    let found_e = subst (λ j. event_row j db.events ≡ some e) (sym at_k) found in
    subst (λ d. Turns turn db (deliver_claimed worker turn (some k, d))) (sym same)
      (subst
        (λ j.
          Turns turn db
            (deliver_claimed worker turn (some j, save_event (claimed worker turn.now e) db)))
        at_k
        (deliver-Turns worker turn.now e db found_e keyed turn
          (attempts_left-claimable turn.now turn.locked e passes)))

outbox_turn-Turns :
    (worker : String) (turn : Turn) (db : OutboxDb)
    → HasIds db
    → Turns turn db (outbox_turn worker turn db)
unfolding outbox_turn
outbox_turn-Turns worker turn db keyed =
    deliver_claimed-Turns worker turn db (claim true worker turn.now turn.locked db) keyed
      (claim-Takes worker turn.now turn.locked db keyed)

abbrev pub add_one : Bool → ℕ → ℕ
add_one true n = n + 1
add_one false n = n

-- A sequence of turns: how many of them did work, and the rows at the end.
abbrev pub turns : String → List Turn → OutboxDb → ℕ × OutboxDb
turns worker [] db = (0, db)
turns worker (turn ∷ rest) db =
    let (did_work, db') = outbox_turn worker turn db in
    let (n, db'') = turns worker rest db' in (add_one did_work n, db'')

turn_step :
    (turn : Turn) (db : OutboxDb) (r : Bool × OutboxDb) (more : ℕ × OutboxDb)
    → Turns turn db r
    → more.0 + potential more.1 ≤ potential r.1
    → add_one r.0 more.0 + potential more.1 ≤ potential db
turn_step turn db (true, db') more t h = omega (arith, t.0, h)
turn_step turn db (false, db') more t h = let e = ap potential t.0 in omega (arith, e, h)

HasIds-step :
    (turn : Turn) (db : OutboxDb) (r : Bool × OutboxDb) → Turns turn db r → HasIds db → HasIds r.1
HasIds-step turn db (true, db') t keyed = t.1
HasIds-step turn db (false, db') t keyed = subst HasIds (sym t.0) keyed

-- While the gate stays open, the turns that do work are at most the deliveries that the
-- waiting events have left, and those that are left at the end come off the bound, whatever
-- the provider answers and whenever the turns run. Event ids are unique.
pub turns-potential :
    (worker : String) (schedule : List Turn) (db : OutboxDb)
    → HasIds db
    → (turns worker schedule db).0 + potential (turns worker schedule db).1 ≤ potential db
turns-potential worker [] db keyed = omega arith
turns-potential worker (turn ∷ rest) db keyed =
    let t = outbox_turn-Turns worker turn db keyed in
    turn_step turn db (outbox_turn worker turn db)
      (turns worker rest (outbox_turn worker turn db).1) t
      (turns-potential worker rest (outbox_turn worker turn db).1
        (HasIds-step turn db (outbox_turn worker turn db) t keyed))

-- at one of the turns no event is claimable
abbrev pub Drains : String → List Turn → OutboxDb → Type 0
Drains worker [] db = ⊥
Drains worker (turn ∷ rest) db =
    All (λ (e : OutboxEvent). claimable turn.now turn.locked e ≡ false) db.events
    ⊎ Drains worker rest (outbox_turn worker turn db).1

drain_on :
    (worker : String) (turn : Turn) (rest : List Turn) (db : OutboxDb) (r : Bool × OutboxDb)
    → Turns turn db r
    → potential db < length rest + 1
    → (HasIds r.1 → potential r.1 < length rest → Drains worker rest r.1)
    → All (λ (e : OutboxEvent). claimable turn.now turn.locked e ≡ false) db.events
      ⊎ Drains worker rest r.1
drain_on worker turn rest db (true, db') t h later = inr (later t.1 (omega (arith, t.0, h)))
drain_on worker turn rest db (false, db') t h later = inl t.1

-- With unique event ids and more turns than deliveries left, the outbox is drained at one of
-- them: no event is claimable at that time.
pub turns-Drains :
    (worker : String) (schedule : List Turn) (db : OutboxDb)
    → HasIds db
    → potential db < length schedule
    → Drains worker schedule db
turns-Drains worker [] db keyed h = absurd (omega arith)
turns-Drains worker (turn ∷ rest) db keyed h =
    drain_on worker turn rest db (outbox_turn worker turn db)
      (outbox_turn-Turns worker turn db keyed) (omega (arith, h))
      (λ k l. turns-Drains worker rest (outbox_turn worker turn db).1 k l)
