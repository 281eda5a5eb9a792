-- ===== src/Lifecycle/Conditions/Advance.antt =====
-- When the advance of a funding goes through.
use moneybee_backend.Base.{◌≡◌, arith, ℕ, ◌≤◌, true, none, some, row, ap, subst, ◌∙◌}
use moneybee_backend.Base.Action.{Result, ok, >>=-of_ok, modify}
use moneybee_backend.Principal.{Principal}
use moneybee_backend.Lifecycle.Status.{ApplicationStatus, FundingStatus}
use moneybee_backend.Lifecycle.Db.{
  Application, Funding, LenderSubmission, Db, Problem, get_application, get_funding,
}
use moneybee_backend.Lifecycle.Funding.{
  lifecycle_index, may_move_funding, same_funding_status, target_of, transition_funding,
}
use moneybee_backend.Lifecycle.Funding.Outcomes.{transition_funding_carries}
use moneybee_backend.Lifecycle.Funding.Frame.{transition_funding-SameTables}
use moneybee_backend.Lifecycle.Conditions.{
  ensure_contract, satisfy, conditions_met, funding_of_submission,
  advance_funding_if_conditions_satisfied,
}
use moneybee_backend.Lifecycle.Conditions.Contracts.{
  contracts_for, OneContract, contracts_for-ensure_contract,
}

-- what the advance reads before it acts
pub record Found (submission_id : ℕ) (s : LenderSubmission) (f : Funding) (db : Db) : Type 0 where
  pub submission : row (λ (x : LenderSubmission). x.id) submission_id db.submissions ≡ some s
  pub funding : funding_of_submission s db ≡ some f

pending_may :
    (s : FundingStatus)
    → same_funding_status s FundingStatus.conditions_pending ≡ true
    → (may_move_funding s FundingStatus.conditions_satisfied ≡ true)
      × (target_of FundingStatus.conditions_satisfied ≡ some ApplicationStatus.conditions_complete)
      × (lifecycle_index ApplicationStatus.conditions_complete ≡ some 2)
unfolding may_move_funding same_funding_status target_of lifecycle_index
pending_may s h = ground arith

ensure_contract_keeps :
    (f : Funding) (db : Db)
    → ((ensure_contract f db).applications ≡ db.applications)
      × ((ensure_contract f db).fundings ≡ db.fundings)
unfolding ensure_contract
ensure_contract_keeps f db = ground arith

-- With every condition of the submission satisfied or waived, its stored funding pending, the
-- application at one of the first three stages and at most one contract for each offer: the
-- advance returns, the funding is at CONDITIONS_SATISFIED, the application at
-- CONDITIONS_COMPLETE, and its offer has exactly one contract.
pub advance_satisfies :
    (submission_id : ℕ) (p : Principal) (s : LenderSubmission) (f : Funding) (a : Application)
    (i : ℕ) (db : Db)
    → Found submission_id s f db
    → conditions_met submission_id db ≡ true
    → same_funding_status f.status FundingStatus.conditions_pending ≡ true
    → get_funding f.id db ≡ some f
    → get_application f.application_id db ≡ some a
    → lifecycle_index a.status ≡ some i
    → i ≤ 2
    → OneContract db
    → (db' : Db) × (a' : Application) × (advance_funding_if_conditions_satisfied submission_id p db
        ≡ (ok tt, db'))
      × (get_funding f.id db' ≡ some (record f { status = FundingStatus.conditions_satisfied }))
      × (get_application a.id db' ≡ some a')
      × (a'.status ≡ ApplicationStatus.conditions_complete)
      × (contracts_for f.offer_id db'.contracts ≡ 1)
unfolding advance_funding_if_conditions_satisfied satisfy
advance_satisfies submission_id p s f a i db found met pending stored there at early one =
    let (may, goal, to) = pending_may f.status pending in
    let (a', db1, rows, e, own, st, _, _, _, _, kept, _) =
      transition_funding_carries f FundingStatus.conditions_satisfied a
        ApplicationStatus.conditions_complete i 2 p none db may goal stored there at to early in
    let same : db1.contracts ≡ db.contracts =
      subst (λ (r : Result Problem Funding × Db). r.1.contracts ≡ db.contracts) e
        (transition_funding-SameTables f FundingStatus.conditions_satisfied p none db).0 in
    let (apps, funds) = ensure_contract_keeps f db1 in
    (
      ensure_contract f db1,
      a',
      rw (found.submission, found.funding, pending, met)
          (>>=-of_ok (transition_funding f FundingStatus.conditions_satisfied p none)
            (λ x. modify (ensure_contract f)) db e),
      ap (row (λ (r : Funding). r.id) f.id) funds ∙ kept,
      ap (row (λ (r : Application). r.id) a.id) apps ∙ own,
      st,
      ground (
        arith,
        one f.offer_id,
        ap (contracts_for f.offer_id) same,
        contracts_for-ensure_contract f db1 f.offer_id,
      ),
    )
