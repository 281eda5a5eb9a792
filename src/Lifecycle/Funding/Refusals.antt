-- ===== src/Lifecycle/Funding/Refusals.antt =====
-- When `transition_funding` refuses, and what it never does.
use moneybee_backend.Base.{
  ◌≡◌, ◌≢◌, refl, arith, ℕ, ◌<◌, ◌⊎◌, inl, inr, String, true, false, Option, none, some, List, [],
  ◌∷◌, Bool-cases, Option-cases, sym, ap, ◌∙◌, ◌||◌,
}
use moneybee_backend.Base.Action.{ok, err}
use moneybee_backend.Principal.{Principal}
use moneybee_backend.Lifecycle.Status.{ApplicationStatus, FundingStatus}
use moneybee_backend.Lifecycle.Db.{
  Application, Funding, Db, get_application, invalid_application_transition, value_error, key_error,
}
use moneybee_backend.Lifecycle.Application.{may_move, same_status, transition_application}
use moneybee_backend.Lifecycle.Application.Traces.{same_status-eq}
use moneybee_backend.Lifecycle.Funding.Outcomes.{not_closing}
use moneybee_backend.Lifecycle.Funding.{
  lifecycle_index, stages_between, walk, may_move_funding, same_funding_status, target_of,
  follow_funding, transition_funding,
}

transition_application-ne-key_error :
    (a : Application) (t : ApplicationStatus) (p : Principal) (reason : Option String) (db : Db)
    → (transition_application a t p reason db).0 ≢ err key_error
unfolding transition_application
transition_application-ne-key_error a t p reason db = ground arith

walk-ne-key_error :
    (stages : List ApplicationStatus) (a : Application) (p : Principal) (reason : Option String)
    (db : Db)
    → (walk stages a p reason db).0 ≢ err key_error
unfolding walk transition_application
walk-ne-key_error [] a p reason db = ground arith
walk-ne-key_error (t ∷ rest) a p reason db = grind (arith, walk-ne-key_error rest)

follow_funding-ne-key_error :
    (a : Application) (t : ApplicationStatus) (p : Principal) (reason : Option String) (db : Db)
    → (follow_funding a t p reason db).0 ≢ err key_error
unfolding follow_funding
follow_funding-ne-key_error a t p reason db = elim (Option-cases (lifecycle_index a.status)) [
  | inl off ↦ rw off (ground (arith, transition_application-ne-key_error a t p reason db))
  | inr (i, at) ↦ elim (Option-cases (lifecycle_index t)) [
    | inl off ↦ rw (at, off) (ground (arith, transition_application-ne-key_error a t p reason db))
    | inr (j, to) ↦
        rw (at, to)
          (ground (
            arith,
            transition_application-ne-key_error a t p reason db,
            walk-ne-key_error (stages_between i j) a p reason db,
          ))
  ]
]

target_of_may : (s t : FundingStatus) → may_move_funding s t ≡ true → target_of t ≢ none
unfolding may_move_funding target_of
target_of_may s t h = ground arith

-- The lookup in the dictionary of targets never fails: `transition_funding` raises no `KeyError`.
pub transition_funding-ne-key_error :
    (f : Funding) (t : FundingStatus) (p : Principal) (reason : Option String) (db : Db)
    → (transition_funding f t p reason db).0 ≢ err key_error
unfolding transition_funding
transition_funding-ne-key_error f t p reason db =
    grind (arith, follow_funding-ne-key_error, target_of_may)

cancelled_closes :
    (same_status ApplicationStatus.cancelled ApplicationStatus.declined
      || same_status ApplicationStatus.cancelled ApplicationStatus.cancelled)
    ≡ true
unfolding same_status
cancelled_closes = refl

apart_of_index :
    (s t : ApplicationStatus) (o : Option ℕ) (j : ℕ)
    → lifecycle_index s ≡ o
    → lifecycle_index t ≡ some j
    → o ≢ some j
    → same_status s t ≡ false
apart_of_index s t o j p q ne = elim (Bool-cases (same_status s t)) [
  | inl same ↦ absurd (ne (sym p ∙ ap lifecycle_index (same_status-eq s t same) ∙ q))
  | inr apart ↦ apart
]

no_cancel :
    (s : ApplicationStatus)
    → (s ≡ ApplicationStatus.conditions_pending) ⊎ (s ≡ ApplicationStatus.funds_sent)
    → (same_status s ApplicationStatus.cancelled ≡ false)
      × (may_move s ApplicationStatus.cancelled ≡ false)
unfolding same_status may_move
no_cancel s h = ground arith

not_same_of_may :
    (s t : FundingStatus) → may_move_funding s t ≡ true → same_funding_status s t ≡ false
unfolding may_move_funding same_funding_status
not_same_of_may s t h = ground arith

-- `FUNDING_TRANSITIONS` lets a funding be cancelled at its first stage and after the funds are sent,
-- but `APPLICATION_TRANSITIONS` has no way to `cancelled` from `conditions_pending` and `funds_sent`:
-- with the application there, every cancellation of its funding that the funding table allows raises
-- the error of the application.
pub transition_funding_cancel_refused :
    (f : Funding) (p : Principal) (reason : Option String) (db : Db) (a : Application)
    → may_move_funding f.status FundingStatus.cancelled ≡ true
    → get_application f.application_id db ≡ some a
    → (a.status ≡ ApplicationStatus.conditions_pending) ⊎ (a.status ≡ ApplicationStatus.funds_sent)
    → (transition_funding f FundingStatus.cancelled p reason db).0
      ≡ err (invalid_application_transition a.status ApplicationStatus.cancelled)
unfolding transition_funding follow_funding transition_application target_of
transition_funding_cancel_refused f p reason db a may found where_it_is =
    let (apart, stuck) = no_cancel a.status where_it_is in
    rw (
      not_same_of_may f.status FundingStatus.cancelled may,
      may,
      found,
      apart,
      cancelled_closes,
      stuck,
    )

-- With the application at a status outside the listed lifecycle, a move of its funding to one of
-- the lifecycle's stages raises an uncaught ValueError.
pub transition_funding_off_lifecycle :
    (f : Funding) (t : FundingStatus) (p : Principal) (reason : Option String) (db : Db)
    (a : Application) (target : ApplicationStatus) (j : ℕ)
    → may_move_funding f.status t ≡ true
    → get_application f.application_id db ≡ some a
    → target_of t ≡ some target
    → lifecycle_index a.status ≡ none
    → lifecycle_index target ≡ some j
    → (transition_funding f t p reason db).0 ≡ err value_error
unfolding transition_funding follow_funding
transition_funding_off_lifecycle f t p reason db a target j may found goal off to = rw (
  not_same_of_may f.status t may,
  may,
  found,
  goal,
  apart_of_index a.status target none j off to (λ e. cc),
  not_closing target j to,
  off,
)

-- The order of the stages of a funding.
abbrev pub rank : FundingStatus → ℕ
rank FundingStatus.conditions_pending = 0
rank FundingStatus.conditions_satisfied = 1
rank FundingStatus.contract_signed = 2
rank FundingStatus.approved_for_funding = 3
rank FundingStatus.funds_sent = 4
rank _ = 5

rank-may_move_funding : (s t : FundingStatus) → may_move_funding s t ≡ true → rank s < rank t
unfolding may_move_funding
rank-may_move_funding s t h = ground arith

same_funding_status-eq : (s t : FundingStatus) → same_funding_status s t ≡ true → s ≡ t
unfolding same_funding_status
same_funding_status-eq s t h = ground arith

-- A call that returns hands back the funding with the status asked for, and either that was its
-- status and the session is unchanged, or the rank of the new status is higher than the old
-- one's.
pub transition_funding_climbs :
    (f g : Funding) (t : FundingStatus) (p : Principal) (reason : Option String) (db db' : Db)
    → transition_funding f t p reason db ≡ (ok g, db')
    → (g ≡ record f { status = t }) × ((f.status ≡ t) × (db' ≡ db) ⊎ (rank f.status < rank t))
unfolding transition_funding
transition_funding_climbs f g t p reason db db' e =
    ground (arith, rank-may_move_funding f.status t, same_funding_status-eq f.status t)
