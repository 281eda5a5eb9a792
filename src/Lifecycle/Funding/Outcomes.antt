-- ===== src/Lifecycle/Funding/Outcomes.antt =====
-- How `transition_funding` ends: when it carries the application along, and when it refuses.
use moneybee_backend.Base.{
  ◌≡◌, ◌≢◌, arith, ℕ, ◌+◌, ◌-◌, ◌≤◌, inl, inr, String, true, false, Option, none, some, List, [],
  ◌∷◌, ◌++◌, length, Bool-cases, le→ltb, row-put_self, key-row, row, subst, ◌||◌, ◌∙◌, ap, sym,
}
use moneybee_backend.Base.Action.{Result, ok, >>=-of_ok, modify, pure, ◌>>◌}
use moneybee_backend.Principal.{Principal}
use moneybee_backend.Lifecycle.Status.{ApplicationStatus, FundingStatus}
use moneybee_backend.Lifecycle.Db.{
  Application, ApplicationStatusHistory, Funding, Db, Problem, AuditEvent, funding_moved,
  get_application, get_funding, save_funding, add_audit,
}
use moneybee_backend.Lifecycle.Application.{same_status}
use moneybee_backend.Lifecycle.Application.Traces.{Logged, Logged-refl, Chain, same_status-eq}
use moneybee_backend.Lifecycle.Funding.{
  lifecycle_index, stages_between, may_move_funding, same_funding_status, target_of, follow_funding,
  transition_funding,
}
use moneybee_backend.Lifecycle.Funding.Walk.{walk-Arrives, stages-is_route}

-- A move of the funding table changes the status and has a target.
moves_of_may :
    (s t : FundingStatus)
    → may_move_funding s t ≡ true
    → (same_funding_status s t ≡ false) × (target_of t ≢ none)
unfolding may_move_funding same_funding_status target_of
moves_of_may s t h = ground arith

-- the position of the application's status and of the target in the lifecycle
record Ahead (a : Application) (target : ApplicationStatus) (i j : ℕ) : Type 0 where
  at : lifecycle_index a.status ≡ some i
  to : lifecycle_index target ≡ some j
  ordered : i ≤ j

-- A stage of the lifecycle is no closing status.
pub not_closing :
    (t : ApplicationStatus) (j : ℕ)
    → lifecycle_index t ≡ some j
    → (same_status t ApplicationStatus.declined || same_status t ApplicationStatus.cancelled)
      ≡ false
unfolding lifecycle_index same_status
not_closing t j h = ground arith

-- What carrying the application along has done.
abbrev pub Carried :
    ApplicationStatus → ℕ → Application → Db → Result Problem Application × Db → Type 0
Carried target steps a db r =
    (a' : Application) × (db' : Db) × (rows : List ApplicationStatusHistory) × (r ≡ (ok a', db'))
    × (a'.status ≡ target)
    × (length rows ≡ steps)
    × Logged a db a' db' rows

index_unique : (o q : Option ℕ) (i j : ℕ) → o ≡ q → o ≡ some i → q ≡ some j → i ≡ j
index_unique o q i j e p r = cc

follow_funding-Carried :
    (a : Application) (target : ApplicationStatus) (i j : ℕ) (p : Principal)
    (reason : Option String) (db : Db)
    → Ahead a target i j
    → Carried target (j - i) a db (follow_funding a target p reason db)
unfolding follow_funding
follow_funding-Carried a target i j p reason db ahead =
    elim (Bool-cases (same_status a.status target)) [
      | inl same ↦
          let e = same_status-eq a.status target same in
          let ij : i ≡ j =
            index_unique (lifecycle_index a.status) (lifecycle_index target) i j
              (ap lifecycle_index e) ahead.at ahead.to in
          (a, db, [], rw same, e, omega arith, Logged-refl a db)
      | inr apart ↦
          let (route, last, len) =
            stages-is_route a.status target i j ahead.at ahead.to ahead.ordered in
          let (a', db', rows, e, s, n, l) = walk-Arrives (stages_between i j) a p reason db route in
          (
            a',
            db',
            rows,
            rw (apart, not_closing target j ahead.to, ahead.at, ahead.to, le→ltb i j ahead.ordered)
                e,
            s ∙ last,
            n ∙ len,
            l,
          )
    ]

-- What a funding step that goes through has done.
abbrev pub Funded :
    Funding
    → FundingStatus
    → Application
    → ApplicationStatus
    → ℕ
    → Principal
    → Option String
    → Db
    → Result Problem Funding × Db
    → Type 0
Funded f to_status a target steps p reason db r =
    (a' : Application) × (db' : Db) × (rows : List ApplicationStatusHistory) × (r
      ≡ (ok (record f { status = to_status }), db'))
    × (get_application a.id db' ≡ some a')
    × (a'.status ≡ target)
    × (length rows ≡ steps)
    × (db'.history ≡ db.history ++ rows)
    × Chain a.id a.status rows target
    × (a'.version ≡ a.version + steps)
    × (get_funding f.id db' ≡ some (record f { status = to_status }))
    × (db'.audit
        ≡ db.audit
          ++ record {
            actor_id = p.subject;
            resource_id = f.id;
            details = funding_moved f.status to_status reason;
          }
            ∷ [])

-- For a stored funding and a move that the funding table allows, with the application at a stage
-- of the lifecycle that is not past the target's: the call returns with the funding at the new
-- status and saved, the application at the stage that belongs to it, one logged row and one
-- version for each stage between, every row a move of the application table, and one audit row.
pub transition_funding_carries :
    (f : Funding) (to_status : FundingStatus) (a : Application) (target : ApplicationStatus)
    (i j : ℕ) (p : Principal) (reason : Option String) (db : Db)
    → may_move_funding f.status to_status ≡ true
    → target_of to_status ≡ some target
    → get_funding f.id db ≡ some f
    → get_application f.application_id db ≡ some a
    → lifecycle_index a.status ≡ some i
    → lifecycle_index target ≡ some j
    → i ≤ j
    → Funded f to_status a target (j - i) p reason db (transition_funding f to_status p reason db)
unfolding transition_funding
transition_funding_carries f to_status a target i j p reason db may goal stored found at to
      ordered =
    let f' : Funding = record f { status = to_status } in
    let row_added : AuditEvent = record {
      actor_id = p.subject;
      resource_id = f.id;
      details = funding_moved f.status to_status reason;
    } in
    let started = save_funding f' db in
    let (a', db', rows, e, s, n, l) =
      follow_funding-Carried a target i j p reason started
        (record { at = at; to = to; ordered = ordered }) in
    (
      a',
      add_audit row_added db',
      rows,
      rw ((moves_of_may f.status to_status may).0, may, found, goal)
          (>>=-of_ok (follow_funding a target p reason)
            (λ x. modify (add_audit row_added) >> pure f') started e),
      l.8 (
          subst (λ k. get_application k db ≡ some a)
            (sym (key-row (λ (r : Application). r.id) f.application_id a db.applications found))
            found),
      s,
      n,
      l.0,
      subst (λ x. Chain a.id a.status rows x) s l.1,
      omega (arith, l.2, n),
      ap (row (λ (r : Funding). r.id) f.id) l.4
          ∙ row-put_self (λ (r : Funding). r.id) f' f db.fundings stored,
      ap (λ rest. rest ++ row_added ∷ []) l.6,
    )
