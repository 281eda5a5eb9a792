-- ===== src/Lifecycle/Tests.antt =====
-- Runs of the lifecycle services, and the theorems at concrete inputs.
use moneybee_backend.Base.{
  ◌≡◌, ◌≢◌, refl, arith, ℕ, ◌+◌, ◌<◌, ◌⊎◌, inr, true, none, some, List, [], ◌∷◌, filter,
}
use moneybee_backend.Base.Action.{ok, err}
use moneybee_backend.Principal.{Principal}
use moneybee_backend.Lifecycle.Status.{ApplicationStatus, FundingStatus, ConditionStatus}
use moneybee_backend.Lifecycle.Db.{
  Application, ApplicationStatusHistory, Funding, LenderSubmission, UnderwritingCondition, Db,
  get_application, invalid_application_transition, key_error, get_funding,
}
use moneybee_backend.Lifecycle.Application.{transition_application, may_move, same_status}
use moneybee_backend.Lifecycle.Application.Traces.{
  Transitions, transition_application-Transitions, Chain,
}
use moneybee_backend.Lifecycle.Application.Order.{passed, funded_passed}
use moneybee_backend.Lifecycle.Funding.{
  transition_funding, may_move_funding, same_funding_status, target_of, lifecycle_index,
  follow_funding, walk,
}
use moneybee_backend.Lifecycle.Funding.Outcomes.{Funded, transition_funding_carries}
use moneybee_backend.Lifecycle.Funding.Refusals.{
  transition_funding-ne-key_error, transition_funding_cancel_refused, rank,
  transition_funding_climbs,
}
use moneybee_backend.Lifecycle.Conditions.{
  advance_funding_if_conditions_satisfied, advance_submissionless_funding, conditions_met,
  funding_of_submission, satisfy, ensure_contract, contract_of_offer,
}
use moneybee_backend.Lifecycle.Conditions.Contracts.{
  contracts_for, OneContract, advance-OneContract,
}
use moneybee_backend.Lifecycle.Conditions.Advance.{Found, advance_satisfies}
use moneybee_backend.Lifecycle.Renewal.{evaluate_renewal_eligibility, is_eligible, create_missing}
use moneybee_backend.Lifecycle.Renewal.Coverage.{
  renewals_for, fundings_with, evaluate_renewal_eligibility_covers,
  evaluate_renewal_eligibility_again,
}

abbrev operator : Principal
operator = record {
  user_id = 1;
  issuer = "moneybee";
  subject = "operator";
  organization_ids = [];
  active_organization_id = none;
  roles = [];
  permissions = "*" ∷ [];
  membership_types = [];
  borrower_id = none;
  lender_id = none;
  is_active = true;
}

abbrev application_at : ApplicationStatus → Application
application_at s = record {
  id = 7;
  lead_id = 3;
  borrower_subject = none;
  borrower_organization_id = some 40;
  requested_amount = 5000000;
  monthly_revenue = 2000000;
  time_in_business_months = 30;
  industry = none;
  state = some "NY";
  status = s;
  version = 4;
}

abbrev funding_at : FundingStatus → Funding
funding_at s = record {
  id = 11;
  application_id = 7;
  offer_id = 21;
  status = s;
  funded_amount = some 5000000;
  funding_confirmed_at = some 1000;
}

abbrev condition_at : ConditionStatus → UnderwritingCondition
condition_at s = record { submission_id = 31; status = s }

abbrev submission : LenderSubmission
submission = record { id = 31; application_id = 7; lender_id = 5; program_id = 6 }

abbrev db_at : ApplicationStatus → FundingStatus → ConditionStatus → Db
db_at a f c = record {
  applications = application_at a ∷ [];
  history = [];
  fundings = funding_at f ∷ [];
  contracts = [];
  submissions = submission ∷ [];
  offers = record { id = 21; lender_id = 5; program_id = some 6 } ∷ [];
  conditions = condition_at c ∷ [];
  renewals = [];
  audit = [];
  uuid4 = λ n. 100 + n;
  generated = 0;
}

abbrev accepted : Db
accepted =
    db_at ApplicationStatus.offer_accepted FundingStatus.conditions_pending
      ConditionStatus.satisfied

abbrev sent : Db
sent = db_at ApplicationStatus.funds_sent FundingStatus.funds_sent ConditionStatus.waived

transition_application-Transitions_example :
    Transitions (application_at ApplicationStatus.matched) ApplicationStatus.declined accepted (
      transition_application
        (application_at ApplicationStatus.matched)
        ApplicationStatus.declined
        operator
        none
        accepted)
transition_application-Transitions_example =
    transition_application-Transitions (application_at ApplicationStatus.matched)
      ApplicationStatus.declined operator none accepted

-- from the offer to the satisfied conditions in one call: two moves of the application
transition_funding_carries_example :
    Funded
      (funding_at FundingStatus.conditions_pending)
      FundingStatus.conditions_satisfied
      (application_at ApplicationStatus.offer_accepted)
      ApplicationStatus.conditions_complete
      2
      operator
      none
      accepted
      (transition_funding
        (funding_at FundingStatus.conditions_pending)
        FundingStatus.conditions_satisfied
        operator
        none
        accepted)
unfolding may_move_funding target_of lifecycle_index
transition_funding_carries_example =
    transition_funding_carries (funding_at FundingStatus.conditions_pending)
      FundingStatus.conditions_satisfied (application_at ApplicationStatus.offer_accepted)
      ApplicationStatus.conditions_complete 0 2 operator none accepted refl refl refl refl refl refl
      (omega arith)

transition_funding-ne-key_error_example :
    (transition_funding
      (funding_at FundingStatus.funds_sent)
      FundingStatus.conditions_pending
      operator
      none
      sent).0
    ≢ err key_error
transition_funding-ne-key_error_example =
    transition_funding-ne-key_error (funding_at FundingStatus.funds_sent)
      FundingStatus.conditions_pending operator none sent

transition_funding_cancel_refused_example :
    (transition_funding
      (funding_at FundingStatus.funds_sent)
      FundingStatus.cancelled
      operator
      none
      sent).0
    ≡ err (invalid_application_transition ApplicationStatus.funds_sent ApplicationStatus.cancelled)
unfolding may_move_funding
transition_funding_cancel_refused_example =
    transition_funding_cancel_refused (funding_at FundingStatus.funds_sent) operator none sent
      (application_at ApplicationStatus.funds_sent) refl refl (inr refl)

abbrev confirmed : Db
confirmed = db_at ApplicationStatus.funds_sent FundingStatus.funded ConditionStatus.waived

transition_funding_climbs_example :
    (record (funding_at FundingStatus.funds_sent) { status = FundingStatus.funded }
      ≡ record (funding_at FundingStatus.funds_sent) { status = FundingStatus.funded })
    × ((FundingStatus.funds_sent ≡ FundingStatus.funded)
          × ((transition_funding
                (funding_at FundingStatus.funds_sent)
                FundingStatus.funded
                operator
                none
                sent).1
              ≡ sent)
        ⊎ (rank FundingStatus.funds_sent < rank FundingStatus.funded))
unfolding transition_funding same_funding_status may_move_funding target_of follow_funding
    same_status lifecycle_index walk transition_application may_move
transition_funding_climbs_example =
    transition_funding_climbs (funding_at FundingStatus.funds_sent)
      (record (funding_at FundingStatus.funds_sent) { status = FundingStatus.funded })
      FundingStatus.funded operator none sent
      (transition_funding (funding_at FundingStatus.funds_sent) FundingStatus.funded operator none
        sent).1
      refl

abbrev step_to : ApplicationStatus → ApplicationStatus → ApplicationStatusHistory
step_to s t = record {
  application_id = 7;
  from_status = s;
  to_status = t;
  reason = none;
  changed_by = "operator";
}

abbrev log : List ApplicationStatusHistory
log =
    step_to ApplicationStatus.application_started ApplicationStatus.ready_for_matching
    ∷ step_to ApplicationStatus.ready_for_matching ApplicationStatus.matched
    ∷ step_to ApplicationStatus.matched ApplicationStatus.offers_available
    ∷ step_to ApplicationStatus.offers_available ApplicationStatus.offer_accepted
    ∷ step_to ApplicationStatus.offer_accepted ApplicationStatus.contract_ready
    ∷ step_to ApplicationStatus.contract_ready ApplicationStatus.contract_sent
    ∷ step_to ApplicationStatus.contract_sent ApplicationStatus.contract_signed
    ∷ step_to ApplicationStatus.contract_signed ApplicationStatus.approved_for_funding
    ∷ step_to ApplicationStatus.approved_for_funding ApplicationStatus.funds_sent
    ∷ step_to ApplicationStatus.funds_sent ApplicationStatus.funded
    ∷ []

log-Chain : Chain 7 ApplicationStatus.application_started log ApplicationStatus.funded
unfolding may_move
log-Chain = ground arith

funded_passed_example :
    (passed ApplicationStatus.matched log ≡ true)
    × (passed ApplicationStatus.contract_ready log ≡ true)
    × (passed ApplicationStatus.contract_sent log ≡ true)
    × (passed ApplicationStatus.contract_signed log ≡ true)
    × (passed ApplicationStatus.approved_for_funding log ≡ true)
    × (passed ApplicationStatus.funds_sent log ≡ true)
funded_passed_example = funded_passed 7 log log-Chain

accepted-OneContract : OneContract accepted
accepted-OneContract o = omega arith

advance-OneContract_example :
    OneContract (advance_funding_if_conditions_satisfied 31 operator accepted).1
    × OneContract (advance_submissionless_funding 11 operator accepted).1
advance-OneContract_example = advance-OneContract 31 11 operator accepted accepted-OneContract

accepted-Found : Found 31 submission (funding_at FundingStatus.conditions_pending) accepted
unfolding funding_of_submission
accepted-Found = record { submission = refl; funding = refl }

advance_satisfies_example :
    (db' : Db) × (a' : Application) × (advance_funding_if_conditions_satisfied 31 operator accepted
      ≡ (ok tt, db'))
    × (get_funding 11 db' ≡ some (funding_at FundingStatus.conditions_satisfied))
    × (get_application 7 db' ≡ some a')
    × (a'.status ≡ ApplicationStatus.conditions_complete)
    × (contracts_for 21 db'.contracts ≡ 1)
unfolding conditions_met same_funding_status lifecycle_index
advance_satisfies_example =
    advance_satisfies 31 operator submission (funding_at FundingStatus.conditions_pending)
      (application_at ApplicationStatus.offer_accepted) 0 accepted accepted-Found refl refl refl
      refl refl (omega arith) accepted-OneContract

evaluate_renewal_eligibility_covers_example :
    (ids : List ℕ) × (db' : Db) × (evaluate_renewal_eligibility 7777000 confirmed ≡ (ok ids, db'))
    × (renewals_for 11 db'.renewals
        ≡ fundings_with 11 (filter (is_eligible 7777000) confirmed.fundings))
evaluate_renewal_eligibility_covers_example =
    evaluate_renewal_eligibility_covers 7777000 11 confirmed

evaluate_renewal_eligibility_again_example :
    let db' = (evaluate_renewal_eligibility 7777000 confirmed).1 in
    evaluate_renewal_eligibility 7777000 db' ≡ (ok [], db')
evaluate_renewal_eligibility_again_example = evaluate_renewal_eligibility_again 7777000 confirmed

scan_creates_one : (evaluate_renewal_eligibility 7777000 confirmed).0 ≡ ok (100 ∷ [])
unfolding evaluate_renewal_eligibility create_missing is_eligible same_funding_status
scan_creates_one = refl

advance_run : (advance_funding_if_conditions_satisfied 31 operator accepted).0 ≡ ok tt
unfolding advance_funding_if_conditions_satisfied funding_of_submission conditions_met satisfy
    transition_funding same_funding_status may_move_funding target_of follow_funding lifecycle_index
    walk transition_application same_status may_move ensure_contract contract_of_offer
advance_run = refl
