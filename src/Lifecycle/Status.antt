-- ===== src/Lifecycle/Status.antt =====
-- The status enumerations of app/models.py and the transition tables of app/services.py.
-- Funding, contract and renewal statuses are plain strings in the source: `other` is any text
-- that is not one of the named ones.
use moneybee_backend.Base.{String, List, [], ◌∷◌}
use moneybee_backend.Base.Text.{String-discrete}

-- `models.ApplicationStatus`
pub data ApplicationStatus : Type 0 where
  application_started application_in_progress application_complete : ApplicationStatus
  verification_pending ready_for_matching matched submitted_to_lenders : ApplicationStatus
  underwriting offers_available offer_accepted conditions_pending : ApplicationStatus
  conditions_complete contract_ready contract_sent contract_signed : ApplicationStatus
  approved_for_funding funds_sent funded closed withdrawn fraud_review : ApplicationStatus
  compliance_review declined expired cancelled : ApplicationStatus

unfoldable pub ApplicationStatus-discrete : Discrete ApplicationStatus
ApplicationStatus-discrete = hlevel

-- `APPLICATION_TRANSITIONS.get(previous, frozenset())`
unfoldable pub application_transitions : ApplicationStatus → List ApplicationStatus
application_transitions application_started =
    application_in_progress ∷ ready_for_matching ∷ withdrawn ∷ []
application_transitions application_in_progress =
    application_complete ∷ ready_for_matching ∷ fraud_review ∷ compliance_review ∷ withdrawn ∷ []
application_transitions application_complete =
    verification_pending ∷ ready_for_matching ∷ fraud_review ∷ compliance_review ∷ []
application_transitions verification_pending =
    ready_for_matching ∷ fraud_review ∷ compliance_review ∷ declined ∷ []
application_transitions fraud_review = ready_for_matching ∷ compliance_review ∷ declined ∷ []
application_transitions compliance_review = ready_for_matching ∷ declined ∷ []
application_transitions ready_for_matching = matched ∷ declined ∷ fraud_review ∷ []
application_transitions matched = submitted_to_lenders ∷ offers_available ∷ declined ∷ []
application_transitions submitted_to_lenders =
    underwriting ∷ conditions_pending ∷ offers_available ∷ declined ∷ []
application_transitions underwriting = conditions_pending ∷ offers_available ∷ declined ∷ []
application_transitions conditions_pending = conditions_complete ∷ offers_available ∷ declined ∷ []
application_transitions offers_available = offer_accepted ∷ expired ∷ declined ∷ []
application_transitions offer_accepted =
    conditions_pending ∷ contract_ready ∷ cancelled ∷ declined ∷ []
application_transitions conditions_complete = contract_ready ∷ cancelled ∷ declined ∷ []
application_transitions contract_ready = contract_sent ∷ cancelled ∷ declined ∷ []
application_transitions contract_sent = contract_signed ∷ expired ∷ cancelled ∷ declined ∷ []
application_transitions contract_signed = approved_for_funding ∷ cancelled ∷ declined ∷ []
application_transitions approved_for_funding = funds_sent ∷ cancelled ∷ declined ∷ []
application_transitions funds_sent = funded ∷ compliance_review ∷ declined ∷ []
application_transitions funded = closed ∷ []
application_transitions _ = []

-- the strings that `Funding.status` takes
pub data FundingStatus : Type 0 where
  conditions_pending conditions_satisfied contract_signed approved_for_funding : FundingStatus
  funds_sent funded declined cancelled : FundingStatus
  other : String → FundingStatus

unfoldable pub FundingStatus-discrete : Discrete FundingStatus
FundingStatus-discrete = hlevel String-discrete

-- `FUNDING_TRANSITIONS.get(previous, frozenset())`
unfoldable pub funding_transitions : FundingStatus → List FundingStatus
funding_transitions conditions_pending = conditions_satisfied ∷ declined ∷ cancelled ∷ []
funding_transitions conditions_satisfied = contract_signed ∷ declined ∷ cancelled ∷ []
funding_transitions contract_signed = approved_for_funding ∷ declined ∷ cancelled ∷ []
funding_transitions approved_for_funding = funds_sent ∷ declined ∷ cancelled ∷ []
funding_transitions funds_sent = funded ∷ declined ∷ cancelled ∷ []
funding_transitions _ = []

-- the strings that `Contract.status` takes
pub data ContractStatus : Type 0 where
  draft sent signed declined expired voided : ContractStatus
  other : String → ContractStatus

unfoldable pub ContractStatus-discrete : Discrete ContractStatus
ContractStatus-discrete = hlevel String-discrete

-- `CONTRACT_TRANSITIONS.get(previous, frozenset())`
unfoldable pub contract_transitions : ContractStatus → List ContractStatus
contract_transitions draft = sent ∷ voided ∷ []
contract_transitions sent = signed ∷ declined ∷ expired ∷ voided ∷ []
contract_transitions _ = []

-- the strings that `RenewalOpportunity.status` takes
pub data RenewalStatus : Type 0 where
  pending contacted converted declined expired : RenewalStatus
  other : String → RenewalStatus

unfoldable pub RenewalStatus-discrete : Discrete RenewalStatus
RenewalStatus-discrete = hlevel String-discrete

-- `RENEWAL_STATUS_TRANSITIONS.get(previous, frozenset())`
unfoldable pub renewal_transitions : RenewalStatus → List RenewalStatus
renewal_transitions pending = contacted ∷ declined ∷ expired ∷ []
renewal_transitions contacted = converted ∷ declined ∷ expired ∷ []
renewal_transitions _ = []

-- the strings that `UnderwritingCondition.status` takes
pub data ConditionStatus : Type 0 where
  borrower_action_required satisfied waived : ConditionStatus
  other : String → ConditionStatus

unfoldable pub ConditionStatus-discrete : Discrete ConditionStatus
ConditionStatus-discrete = hlevel String-discrete
