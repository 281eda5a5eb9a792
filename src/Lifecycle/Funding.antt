-- ===== src/Lifecycle/Funding.antt =====
-- `transition_funding` of app/services.py.
pub mod Walk
pub mod Outcomes
pub mod Refusals
pub mod Frame
use moneybee_backend.Base.{
  ℕ, ◌+◌, ◌-◌, String, Bool, true, false, Option, none, some, List, [], ◌∷◌, not, ◌||◌, equal, mem?,
  index?, take, drop, ltb, if◌then◌else◌,
}
use moneybee_backend.Base.Action.{pure, raise, ◌>>=◌, ◌>>◌, modify, gets, or_raise, raise_unless}
use moneybee_backend.Principal.{Principal}
use moneybee_backend.Lifecycle.Status.{
  ApplicationStatus, ApplicationStatus-discrete, FundingStatus, FundingStatus-discrete,
  funding_transitions,
}
use moneybee_backend.Lifecycle.Db.{
  Application, Funding, Service, Problem, invalid_funding_transition, funding_application_missing,
  application_ahead_of_funding, key_error, value_error, funding_moved, get_application,
  save_funding, add_audit,
}
use moneybee_backend.Lifecycle.Application.{same_status, transition_application}

-- `to_status in FUNDING_TRANSITIONS.get(previous, frozenset())`
unfoldable pub may_move_funding : FundingStatus → FundingStatus → Bool
unfolding FundingStatus-discrete funding_transitions
may_move_funding previous to_status =
    mem? FundingStatus-discrete to_status (funding_transitions previous)

unfoldable pub same_funding_status : FundingStatus → FundingStatus → Bool
unfolding FundingStatus-discrete
same_funding_status previous to_status = equal FundingStatus-discrete previous to_status

-- the dictionary `target`; `none` is its `KeyError`
unfoldable pub target_of : FundingStatus → Option ApplicationStatus
target_of FundingStatus.conditions_satisfied = some ApplicationStatus.conditions_complete
target_of FundingStatus.contract_signed = some ApplicationStatus.contract_signed
target_of FundingStatus.approved_for_funding = some ApplicationStatus.approved_for_funding
target_of FundingStatus.funds_sent = some ApplicationStatus.funds_sent
target_of FundingStatus.funded = some ApplicationStatus.funded
target_of FundingStatus.declined = some ApplicationStatus.declined
target_of FundingStatus.cancelled = some ApplicationStatus.cancelled
target_of _ = none

abbrev pub lifecycle : List ApplicationStatus
lifecycle =
    ApplicationStatus.offer_accepted ∷ ApplicationStatus.conditions_pending
    ∷ ApplicationStatus.conditions_complete ∷ ApplicationStatus.contract_ready
    ∷ ApplicationStatus.contract_sent ∷ ApplicationStatus.contract_signed
    ∷ ApplicationStatus.approved_for_funding ∷ ApplicationStatus.funds_sent
    ∷ ApplicationStatus.funded ∷ []

-- `lifecycle.index(status)`; `none` is its `ValueError`
unfoldable pub lifecycle_index : ApplicationStatus → Option ℕ
unfolding ApplicationStatus-discrete
lifecycle_index status = index? ApplicationStatus-discrete status lifecycle

-- `lifecycle[current + 1 : target + 1]`
abbrev pub stages_between : ℕ → ℕ → List ApplicationStatus
stages_between current target = take (target - current) (drop (current + 1) lifecycle)

-- the loop that makes one `transition_application` for each stage
unfoldable pub walk :
    List ApplicationStatus → Application → Principal → Option String → Service Application
walk [] application principal reason = pure application
walk (next_status ∷ rest) application principal reason =
    transition_application application next_status principal reason >>= λ after.
    walk rest after principal reason

-- The branches under `if application.status != target`.
unfoldable pub follow_funding :
    Application → ApplicationStatus → Principal → Option String → Service Application
follow_funding application target principal reason =
    if same_status application.status target
    then pure application
    else if same_status target ApplicationStatus.declined
        || same_status target ApplicationStatus.cancelled
    then transition_application application target principal reason
    else do
      current_index ← or_raise (lifecycle_index application.status) value_error
      target_index ← or_raise (lifecycle_index target) value_error
      raise_unless (not (ltb target_index current_index)) application_ahead_of_funding
      walk (stages_between current_index target_index) application principal reason

unfoldable pub transition_funding :
    Funding → FundingStatus → Principal → Option String → Service Funding
transition_funding funding to_status principal reason =
    if same_funding_status funding.status to_status then pure funding else do
      raise_unless (may_move_funding funding.status to_status)
          (invalid_funding_transition funding.status to_status)
      modify (save_funding (record funding { status = to_status }))
      found ← gets (get_application funding.application_id)
      application ← or_raise found funding_application_missing
      target ← or_raise (target_of to_status) key_error
      follow_funding application target principal reason
      modify (
          add_audit (record {
            actor_id = principal.subject;
            resource_id = funding.id;
            details = funding_moved funding.status to_status reason;
          }))
      pure (record funding { status = to_status })
