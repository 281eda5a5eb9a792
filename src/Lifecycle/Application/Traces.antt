-- ===== src/Lifecycle/Application/Traces.antt =====
-- The status history as a log of `transition_application`.
use moneybee_backend.Base.{
  ◌≡◌, refl, arith, ℕ, ◌+◌, String, true, false, Option, List, [], ◌∷◌, ◌++◌, length, append_assoc,
  append-nil, length-append, row-put_ne, row-put_self, ◌≢◌, some, Bool-cases, inl, inr, sym, subst,
  ap, ◌∙◌,
}
use moneybee_backend.Base.Action.{Result, ok, err}
use moneybee_backend.Principal.{Principal}
use moneybee_backend.Lifecycle.Status.{ApplicationStatus}
use moneybee_backend.Lifecycle.Db.{
  Application, ApplicationStatusHistory, Db, Problem, get_application, save_application,
  add_history, invalid_application_transition,
}
use moneybee_backend.Lifecycle.Application.{
  may_move, same_status, moved, history_row, transition_application,
}

-- The rows lead the application `id` from one status to another along the transition table.
abbrev pub Chain :
    ℕ → ApplicationStatus → List ApplicationStatusHistory → ApplicationStatus → Type 0
Chain id s [] t = s ≡ t
Chain id s (r ∷ rows) t =
    (r.application_id ≡ id)
    × (r.from_status ≡ s)
    × (may_move s r.to_status ≡ true)
    × Chain id r.to_status rows t

pub Chain-append :
    (id : ℕ) (s : ApplicationStatus) (rows : List ApplicationStatusHistory) (t : ApplicationStatus)
    (rest : List ApplicationStatusHistory) (u : ApplicationStatus)
    → Chain id s rows t
    → Chain id t rest u
    → Chain id s (rows ++ rest) u
Chain-append id s [] t rest u c d = subst (λ x. Chain id x rest u) (sym c) d
Chain-append id s (r ∷ rows) t rest u c d =
    (c.0, c.1, c.2, Chain-append id r.to_status rows t rest u c.3 d)

-- What a call has done to the application and to the log: the new rows lead from the old status to
-- the new one, the version counts them, and the rows of other tables are as they were.
abbrev pub Logged : Application → Db → Application → Db → List ApplicationStatusHistory → Type 0
Logged a db a' db' rows =
    (db'.history ≡ db.history ++ rows)
    × Chain a.id a.status rows a'.status
    × (a'.version ≡ a.version + length rows)
    × (a'.id ≡ a.id)
    × (db'.fundings ≡ db.fundings)
    × (db'.contracts ≡ db.contracts)
    × (db'.audit ≡ db.audit)
    × ((k : ℕ) → k ≢ a.id → get_application k db' ≡ get_application k db)
    × (get_application a.id db ≡ some a → get_application a.id db' ≡ some a')

pub Logged-refl : (a : Application) (db : Db) → Logged a db a db []
Logged-refl a db = (
  sym (append-nil db.history),
  refl,
  omega arith,
  refl,
  refl,
  refl,
  refl,
  (λ k ne. refl),
  (λ e. e),
)

pub Logged-trans :
    (a b c : Application) (d e f : Db) (rows rest : List ApplicationStatusHistory)
    → Logged a d b e rows
    → Logged b e c f rest
    → Logged a d c f (rows ++ rest)
Logged-trans a b c d e f rows rest (h, k, v, i, fs, cs, au, ot, own)
      (h', k', v', i', fs', cs', au', ot', own') =
    (
      h' ∙ ap (λ l. l ++ rest) h ∙ append_assoc d.history rows rest,
      Chain-append a.id a.status rows b.status rest c.status k
          (subst (λ x. Chain x b.status rest c.status) i k'),
      omega (arith, length-append rows rest),
      i' ∙ i,
      fs' ∙ fs,
      cs' ∙ cs,
      au' ∙ au,
      λ n ne. ot' n (λ e. ne (e ∙ i)) ∙ ot n ne,
      λ found.
          subst (λ x. get_application x f ≡ some c) i
            (own' (subst (λ x. get_application x e ≡ some b) (sym i) (own found))),
    )

-- the session after one move
abbrev pub after_move : Application → ApplicationStatus → Principal → Option String → Db → Db
after_move a to_status p reason db =
    add_history (history_row a to_status p reason) (save_application (moved a to_status) db)

-- How a call ends: with the status asked for and its log, or with an error and the session as it was.
abbrev pub Transitions :
    Application → ApplicationStatus → Db → Result Problem Application × Db → Type 0
Transitions a to_status db (ok a', db') =
    (a'.status ≡ to_status) × ((rows : List ApplicationStatusHistory) × Logged a db a' db' rows)
Transitions a to_status db (err e, db') =
    (db' ≡ db)
    × (e ≡ invalid_application_transition a.status to_status)
    × (may_move a.status to_status ≡ false)

pub same_status-eq : (s t : ApplicationStatus) → same_status s t ≡ true → s ≡ t
unfolding same_status
same_status-eq s t h = ground arith

pub one_move-Logged :
    (a : Application) (to_status : ApplicationStatus) (p : Principal) (reason : Option String)
    (db : Db)
    → may_move a.status to_status ≡ true
    → Logged a db
        (moved a to_status)
        (after_move a to_status p reason db)
        (history_row a to_status p reason ∷ [])
one_move-Logged a to_status p reason db may = (
  refl,
  (refl, refl, may, refl),
  refl,
  refl,
  refl,
  refl,
  refl,
  (λ k ne. row-put_ne (λ (r : Application). r.id) (moved a to_status) k db.applications ne),
  (λ e. row-put_self (λ (r : Application). r.id) (moved a to_status) a db.applications e),
)

-- However the call ends: it returns with the status asked for, logged row by row along the
-- transition table and counted by the version, the application's row holding the result if it
-- held the application before, and the other applications, the fundings, the contracts and the
-- audit rows untouched; or the table has no such move, it raises INVALID_APPLICATION_TRANSITION
-- and the session is unchanged.
pub transition_application-Transitions :
    (a : Application) (to_status : ApplicationStatus) (p : Principal) (reason : Option String)
    (db : Db)
    → Transitions a to_status db (transition_application a to_status p reason db)
unfolding transition_application
transition_application-Transitions a to_status p reason db =
    elim (Bool-cases (same_status a.status to_status)) [
      | inl same ↦ rw same (same_status-eq a.status to_status same, ([], Logged-refl a db))
      | inr apart ↦ elim (Bool-cases (may_move a.status to_status)) [
        | inl may ↦
            rw (apart, may)
              (
                refl,
                (
                  history_row a to_status p reason ∷ [],
                  one_move-Logged a to_status p reason db may,
                ),
              )
        | inr may ↦ rw (apart, may) (refl, refl, may)
      ]
    ]

-- A move of the table is made.
pub transition_application_moves :
    (a : Application) (to_status : ApplicationStatus) (p : Principal) (reason : Option String)
    (db : Db)
    → same_status a.status to_status ≡ false
    → may_move a.status to_status ≡ true
    → transition_application a to_status p reason db
      ≡ (ok (moved a to_status), after_move a to_status p reason db)
unfolding transition_application
transition_application_moves a to_status p reason db apart may = rw (apart, may)
