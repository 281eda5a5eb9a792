-- ===== src/Worker/Outbox/Leases.antt =====
-- A leased event under the claims, deliveries and requeues of other processes.
use moneybee_backend.Base.{
  ℕ, ◌≤◌, ◌≡◌, ◌≢◌, refl, arith, String, Bool, true, false, Option, none, some, List, [], ◌∷◌, All,
  filter, rows_with, IsKeyed, rows_with-put, row-put_ne, key-row, equal, Bool-cases, Option-cases,
  inl, inr, ◌==◌, ==_iff, subst, sym, ap, ◌∙◌,
}
use moneybee_backend.Base.Text.{String-discrete}
use moneybee_backend.Worker.Outbox.{
  OutboxStatus, OutboxEvent, OutboxDb, event_row, save_event, is_waiting, claimable, claimed, claim,
  PublishAnswer, published, failed, ask, settle_delivery, deliver, deliver_found, delivered_event,
  failed_event, put_back, owns_lease, is_leased, crm_row, is_crm_event, requeued,
  requeue_crm_delivery, requeue_found, is_delivered,
}
use moneybee_backend.Worker.Outbox.Takes.{Takes, claim-Takes}
use moneybee_backend.Worker.Outbox.Rounds.{HasIds}

-- what a process can do to the outbox, with what it depends on
pub data Step : Type 0 where
  claims : Bool → String → ℕ → List ℕ → Step
  delivers : Bool → String → Bool → ℕ → PublishAnswer → ℕ → Step
  requeues : String → String → ℕ → Step

abbrev pub step : Step → OutboxDb → OutboxDb
step (claims enabled worker now locked) db = (claim enabled worker now locked db).1
step (delivers enabled worker crm_write now answer k) db =
    deliver enabled worker crm_write now answer k db
step (requeues actor_id reason k) db = (requeue_crm_delivery actor_id reason k db).1

-- a delivery by the worker itself
abbrev pub is_own_delivery : String → Step → Bool
is_own_delivery worker (claims _ _ _ _) = false
is_own_delivery worker (delivers _ w _ _ _ _) = equal String-discrete worker w
is_own_delivery worker (requeues _ _ _) = false

abbrev pub run : List Step → OutboxDb → OutboxDb
run [] db = db
run (s ∷ rest) db = run rest (step s db)

-- the event stands as it was, and ids are unique
abbrev Holds : OutboxEvent → OutboxDb → Type 0
Holds e db = HasIds db × (event_row e.id db.events ≡ some e)

-- saving another event
Holds-save :
    (e x : OutboxEvent) (db : OutboxDb) → Holds e db → e.id ≢ x.id → Holds e (save_event x db)
Holds-save e x db h ne = (
  (λ k. omega (arith, rows_with-put (λ (y : OutboxEvent). y.id) k x db.events, h.0 k)),
  row-put_ne (λ (y : OutboxEvent). y.id) x e.id db.events ne ∙ h.1,
)

waits :
    (now : ℕ) (locked : List ℕ) (e : OutboxEvent)
    → claimable now locked e ≡ true
    → is_waiting e.status ≡ true
unfolding claimable
waits now locked e h = ground arith

leased_waits : (s : OutboxStatus) → is_leased s ≡ true → is_waiting s ≡ true → ⊥
leased_waits OutboxStatus.leased h k = cc
leased_waits OutboxStatus.pending h k = cc
leased_waits OutboxStatus.delivered h k = cc
leased_waits OutboxStatus.retry h k = cc
leased_waits OutboxStatus.dead h k = cc

Holds-Takes :
    (e : OutboxEvent) (worker : String) (now : ℕ) (locked : List ℕ) (db : OutboxDb)
    (r : Option ℕ × OutboxDb)
    → Holds e db
    → is_leased e.status ≡ true
    → Takes worker now locked db r
    → Holds e r.1
Holds-Takes e worker now locked db (none, db') h leased c = subst (Holds e) (sym c.0) h
Holds-Takes e worker now locked db (some k, db') h leased (x, found, passes, first, same) =
    let at_k = key-row (λ (y : OutboxEvent). y.id) k x db.events found in
    subst (Holds e) (sym same) (
      Holds-save e (claimed worker now x) db h (λ meet.
        let e_is_x : e ≡ x = cc (sym h.1 ∙ ap (λ j. event_row j db.events) (meet ∙ at_k) ∙ found) in
        leased_waits e.status leased (
          subst (λ (y : OutboxEvent). is_waiting y.status ≡ true) (sym e_is_x)
            (waits now locked x passes))))

Holds-settle :
    (e x : OutboxEvent) (now : ℕ) (answer : PublishAnswer) (db : OutboxDb)
    → Holds e db
    → e.id ≢ x.id
    → Holds e (settle_delivery now answer x db)
unfolding settle_delivery
Holds-settle e x now (published p i) db h ne = Holds-save e (delivered_event now x) db h ne
Holds-settle e x now (failed f) db h ne = Holds-save e (failed_event now f x) db h ne

row-filter :
    (k : ℕ) (x : OutboxEvent) (rows : List OutboxEvent)
    → event_row k (filter is_crm_event rows) ≡ some x
    → 1 ≤ rows_with (λ (y : OutboxEvent). y.id) k rows
row-filter k x [] h = cc
row-filter k x (r ∷ rows) h = elim (Bool-cases (is_crm_event r)) [
  | inl crm ↦ elim (Bool-cases (r.id == k)) [
    | inl here ↦ ground arith
    | inr later ↦ omega (arith, row-filter k x rows (rw (crm, later) at h))
  ]
  | inr no_crm ↦ omega (arith, row-filter k x rows (rw no_crm at h))
]

crm_row_lem :
    (k : ℕ) (x : OutboxEvent) (rows : List OutboxEvent)
    → IsKeyed (λ (y : OutboxEvent). y.id) rows
    → event_row k (filter is_crm_event rows) ≡ some x
    → event_row k rows ≡ some x
crm_row_lem k x [] keyed h = h
crm_row_lem k x (r ∷ rows) keyed h = elim (Bool-cases (r.id == k)) [
  | inr apart ↦ elim (Bool-cases (is_crm_event r)) [
    | inl crm ↦ rw apart (crm_row_lem k x rows (λ j. omega (arith, keyed j)) (rw (crm, apart) at h))
    | inr no_crm ↦ rw apart (crm_row_lem k x rows (λ j. omega (arith, keyed j)) (rw no_crm at h))
  ]
  | inl here ↦ elim (Bool-cases (is_crm_event r)) [
    | inl crm ↦ ground arith
    | inr no_crm ↦
        let once = keyed k in
        let more = row-filter k x rows (rw no_crm at h) in absurd (ground arith)
  ]
]

module _ (e : OutboxEvent) (owner : String) (leased : is_leased e.status ≡ true)
    (owned : e.lease_owner ≡ some owner) where
  Holds-deliver_found :
      (enabled : Bool) (worker : String) (crm_write : Bool) (now : ℕ) (answer : PublishAnswer)
      (k : ℕ) (o : Option OutboxEvent) (db : OutboxDb)
      → Holds e db
      → equal String-discrete owner worker ≡ false
      → event_row k db.events ≡ o
      → Holds e (deliver_found enabled worker crm_write now answer o db)
  Holds-deliver_found enabled worker crm_write now answer k none db h other found = h
  Holds-deliver_found enabled worker crm_write now answer k (some x) db h other found =
      let at_k = key-row (λ (y : OutboxEvent). y.id) k x db.events found in
      elim (Bool-cases (e.id == x.id)) [
        | inl meet ↦
            let meets = (==_iff e.id x.id).0 meet in
            let e_is_x : e ≡ x =
              cc (sym h.1 ∙ ap (λ j. event_row j db.events) (meets ∙ at_k) ∙ found) in
            let theirs : owns_lease worker x.lease_owner ≡ false =
              subst (λ (y : OutboxEvent). owns_lease worker y.lease_owner ≡ false) e_is_x
                (rw owned other) in
            rw theirs h
        | inr apart ↦
            let ne : e.id ≢ x.id = λ m. cc (sym apart ∙ (==_iff e.id x.id).1 m) in
            elim (Bool-cases (owns_lease worker x.lease_owner)) [
              | inr not_owner ↦ rw not_owner h
              | inl is_theirs ↦ elim (Bool-cases enabled) [
                | inl on ↦ rw (is_theirs, on) (Holds-settle e x now (ask crm_write answer) db h ne)
                | inr off ↦ rw (is_theirs, off) (Holds-save e (put_back x) db h ne)
              ]
            ]
      ]

  Holds-requeue :
      (actor_id reason : String) (x : OutboxEvent) (db : OutboxDb)
      → Holds e db
      → event_row x.id db.events ≡ some x
      → Holds e (requeue_found actor_id reason x db).1
  Holds-requeue actor_id reason x db h found = elim (Bool-cases (is_delivered x.status)) [
    | inl done ↦ rw done h
    | inr open_yet ↦ elim (Bool-cases (is_leased x.status)) [
      | inl busy ↦ rw (open_yet, busy) h
      | inr idle ↦
          rw (open_yet, idle)
            (Holds-save e (requeued x) db h (λ meet.
              let e_is_x : e ≡ x = cc (sym h.1 ∙ ap (λ j. event_row j db.events) meet ∙ found) in
              let e_idle : is_leased e.status ≡ false =
                subst (λ (y : OutboxEvent). is_leased y.status ≡ false) (sym e_is_x) idle in
              cc (sym leased ∙ e_idle)))
    ]
  ]

  Holds-requeues :
      (actor_id reason : String) (k : ℕ) (db : OutboxDb)
      → Holds e db
      → Holds e (requeue_crm_delivery actor_id reason k db).1
  unfolding requeue_crm_delivery
  Holds-requeues actor_id reason k db h = elim (Option-cases (crm_row k db)) [
    | inl missing ↦ rw missing h
    | inr (x, found) ↦
        let full = crm_row_lem k x db.events h.0 found in
        let at_k = key-row (λ (y : OutboxEvent). y.id) k x db.events full in
        rw found (
          Holds-requeue actor_id reason x db h
            (subst (λ j. event_row j db.events ≡ some x) (sym at_k) full))
  ]

  Holds-step :
      (s : Step) (db : OutboxDb)
      → is_own_delivery owner s ≡ false
      → Holds e db
      → Holds e (step s db)
  unfolding deliver claim
  Holds-step (claims true worker now locked) db not_own h =
      Holds-Takes e worker now locked db (claim true worker now locked db) h leased
        (claim-Takes worker now locked db h.0)
  Holds-step (claims false worker now locked) db not_own h = h
  Holds-step (delivers enabled worker crm_write now answer k) db not_own h =
      Holds-deliver_found enabled worker crm_write now answer k (event_row k db.events) db h not_own
        refl
  Holds-step (requeues actor_id reason k) db not_own h = Holds-requeues actor_id reason k db h

  Holds-run :
      (steps : List Step) (db : OutboxDb)
      → All (λ s. is_own_delivery owner s ≡ false) steps
      → Holds e db
      → Holds e (run steps db)
  Holds-run [] db others h = h
  Holds-run (s ∷ steps) db others h =
      Holds-run steps (step s db) others.1 (Holds-step s db others.0 h)

-- With unique event ids: a leased event stays as it is, also after its lease has run out, under any
-- sequence of claims by any worker, deliveries by other workers and requeues by an administrator.
pub run-leased :
    (steps : List Step) (db : OutboxDb) (e : OutboxEvent) (owner : String)
    → HasIds db
    → event_row e.id db.events ≡ some e
    → is_leased e.status ≡ true
    → e.lease_owner ≡ some owner
    → All (λ s. is_own_delivery owner s ≡ false) steps
    → event_row e.id (run steps db).events ≡ some e
run-leased steps db e owner keyed found leased owned others =
    (Holds-run e owner leased owned steps db others (keyed, found)).1
