-- ===== src/Lifecycle/Conditions.antt =====
-- `transition_contract`, `advance_funding_if_conditions_satisfied` and
-- `advance_submissionless_funding` of app/services.py.
pub mod Contracts
pub mod Advance
use moneybee_backend.Base.{
  ℕ, ◌+◌, String, Bool, true, false, not, ◌&&◌, Option, none, some, List, [], ◌∷◌, ◌++◌, equal,
  mem?, all, any, filter, find, row, ◌==◌, if◌then◌else◌,
}
use moneybee_backend.Base.Action.{pure, raise, ◌>>=◌, ◌>>◌, modify, gets}
use moneybee_backend.Principal.{Principal}
use moneybee_backend.Lifecycle.Status.{
  FundingStatus, ContractStatus, ContractStatus-discrete, contract_transitions, ConditionStatus,
  ConditionStatus-discrete,
}
use moneybee_backend.Lifecycle.Db.{
  Funding, Contract, LenderSubmission, Offer, UnderwritingCondition, Db, Service,
  invalid_contract_transition, contract_moved, get_funding, save_contract, add_audit,
}
use moneybee_backend.Lifecycle.Funding.{same_funding_status, transition_funding}

unfoldable pub transition_contract :
    Contract → ContractStatus → Principal → Option String → Service Contract
unfolding ContractStatus-discrete contract_transitions
transition_contract contract to_status principal reason =
    if equal ContractStatus-discrete contract.status to_status
    then pure contract
    else if not (mem? ContractStatus-discrete to_status (contract_transitions contract.status))
    then raise (invalid_contract_transition contract.status to_status)
    else modify (save_contract (record contract { status = to_status }))
      >> modify (
          add_audit (record {
            actor_id = principal.subject;
            resource_id = contract.id;
            details = contract_moved contract.status to_status reason;
          }))
      >> pure (record contract { status = to_status })

-- `models.Offer.program_id == submission.program_id`, which a missing program fails
abbrev is_program : ℕ → Option ℕ → Bool
is_program k none = false
is_program k (some j) = j == k

-- the joined query for the funding that came from an offer on the submission
unfoldable pub funding_of_submission : LenderSubmission → Db → Option Funding
funding_of_submission s db =
    find
      (λ f.
        f.application_id == s.application_id
        && any
            (λ (o : Offer).
              o.id == f.offer_id
              && o.lender_id == s.lender_id
              && is_program s.program_id o.program_id)
            db.offers)
      db.fundings

unfoldable pub contract_of_offer : ℕ → Db → Option Contract
contract_of_offer offer_id db = find (λ c. c.offer_id == offer_id) db.contracts

-- `item.status in {"SATISFIED", "WAIVED"}`
unfoldable pub is_met : UnderwritingCondition → Bool
unfolding ConditionStatus-discrete
is_met c =
    mem? ConditionStatus-discrete c.status (ConditionStatus.satisfied ∷ ConditionStatus.waived ∷ [])

unfoldable pub conditions_met : ℕ → Db → Bool
unfolding is_met
conditions_met submission_id db =
    all is_met
      (filter (λ (c : UnderwritingCondition). c.submission_id == submission_id) db.conditions)

-- A contract in `DRAFT` for the offer of the funding, unless the offer has one.
abbrev pub draft_if_none : Option Contract → Funding → Db → Db
draft_if_none (some c) f db = db
draft_if_none none f db = record db {
  contracts =
      db.contracts
      ++ record {
        id = db.uuid4 db.generated;
        application_id = f.application_id;
        offer_id = f.offer_id;
        template_version = "v1";
        status = ContractStatus.draft;
      }
        ∷ [];
  generated = db.generated + 1;
}

unfoldable pub ensure_contract : Funding → Db → Db
ensure_contract f db = draft_if_none (contract_of_offer f.offer_id db) f db

-- `if funding is None or funding.status != "CONDITIONS_PENDING": return`, then the rest by `go`
abbrev pub when_pending : Option Funding → (Funding → Service (Unit {0})) → Service (Unit {0})
when_pending none go = pure tt
when_pending (some f) go =
    if same_funding_status f.status FundingStatus.conditions_pending then go f else pure tt

unfoldable pub satisfy : Funding → Principal → Service (Unit {0})
satisfy f principal = do
  transition_funding f FundingStatus.conditions_satisfied principal none
  modify (ensure_contract f)

abbrev pub advance_submission : ℕ → Principal → Option LenderSubmission → Service (Unit {0})
advance_submission submission_id principal none = pure tt
advance_submission submission_id principal (some s) = gets (funding_of_submission s) >>= λ found.
    when_pending found (λ f.
      gets (conditions_met submission_id) >>= λ met. if met then satisfy f principal else pure tt)

unfoldable pub advance_funding_if_conditions_satisfied : ℕ → Principal → Service (Unit {0})
advance_funding_if_conditions_satisfied submission_id principal =
    gets (λ db. row (λ (s : LenderSubmission). s.id) submission_id db.submissions)
    >>= advance_submission submission_id principal

unfoldable pub advance_submissionless_funding : ℕ → Principal → Service (Unit {0})
advance_submissionless_funding funding_id principal =
    gets (get_funding funding_id) >>= λ found. when_pending found (λ f. satisfy f principal)
