-- ===== src/Lifecycle/Db.antt =====
-- The rows of app/models.py that the lifecycle services read and write, the session over them, and
-- the exceptions that the services raise. Money is in cents, times are in seconds.
use moneybee_backend.Base.{ℕ, String, Option, List, [], ◌∷◌, ◌++◌, row, put}
use moneybee_backend.Base.Action.{Action}
use moneybee_backend.Lifecycle.Status.{
  ApplicationStatus, FundingStatus, ContractStatus, RenewalStatus, ConditionStatus,
}

pub record Application : Type 0 where
  pub id : ℕ
  pub lead_id : ℕ
  pub borrower_subject : Option String
  pub borrower_organization_id : Option ℕ
  pub requested_amount : ℕ
  pub monthly_revenue : ℕ
  pub time_in_business_months : ℕ
  pub industry : Option String
  pub state : Option String
  pub status : ApplicationStatus
  pub version : ℕ

pub record ApplicationStatusHistory : Type 0 where
  pub application_id : ℕ
  pub from_status : ApplicationStatus
  pub to_status : ApplicationStatus
  pub reason : Option String
  pub changed_by : String

pub record Funding : Type 0 where
  pub id : ℕ
  pub application_id : ℕ
  pub offer_id : ℕ
  pub status : FundingStatus
  pub funded_amount : Option ℕ
  pub funding_confirmed_at : Option ℕ

pub record Contract : Type 0 where
  pub id : ℕ
  pub application_id : ℕ
  pub offer_id : ℕ
  pub template_version : String
  pub status : ContractStatus

pub record LenderSubmission : Type 0 where
  pub id : ℕ
  pub application_id : ℕ
  pub lender_id : ℕ
  pub program_id : ℕ

pub record Offer : Type 0 where
  pub id : ℕ
  pub lender_id : ℕ
  pub program_id : Option ℕ

pub record UnderwritingCondition : Type 0 where
  pub submission_id : ℕ
  pub status : ConditionStatus

pub record RenewalOpportunity : Type 0 where
  pub id : ℕ
  pub original_funding_id : ℕ
  pub application_id : ℕ
  pub eligible_from : ℕ
  pub eligibility_status : String
  pub estimated_amount : Option ℕ
  pub status : RenewalStatus

-- What an audit row says of a status change; the row's action is the kind and the new status.
pub data AuditDetails : Type 0 where
  funding_moved : FundingStatus → FundingStatus → Option String → AuditDetails
  contract_moved : ContractStatus → ContractStatus → Option String → AuditDetails
  renewal_moved : RenewalStatus → RenewalStatus → Option String → AuditDetails

pub record AuditEvent : Type 0 where
  pub actor_id : String
  pub resource_id : ℕ
  pub details : AuditDetails

-- The session. `uuid4 n` is the n-th id that the generator gives; `generated` counts them.
pub record Db : Type 0 where
  pub applications : List Application
  pub history : List ApplicationStatusHistory
  pub fundings : List Funding
  pub contracts : List Contract
  pub submissions : List LenderSubmission
  pub offers : List Offer
  pub conditions : List UnderwritingCondition
  pub renewals : List RenewalOpportunity
  pub audit : List AuditEvent
  pub uuid4 : ℕ → ℕ
  pub generated : ℕ

-- `HTTPException` by its code, and the two Python exceptions that the code can meet
pub data Problem : Type 0 where
  invalid_application_transition : ApplicationStatus → ApplicationStatus → Problem
  invalid_funding_transition : FundingStatus → FundingStatus → Problem
  invalid_contract_transition : ContractStatus → ContractStatus → Problem
  invalid_renewal_status_transition : RenewalStatus → RenewalStatus → Problem
  funding_application_missing application_ahead_of_funding key_error value_error : Problem

abbrev pub Service : Type 0 → Type 0
Service A = Action Db Problem A

abbrev pub save_application : Application → Db → Db
save_application a db = record db {
  applications = put (λ (r : Application). r.id) a db.applications;
}

abbrev pub save_funding : Funding → Db → Db
save_funding f db = record db { fundings = put (λ (r : Funding). r.id) f db.fundings }

abbrev pub save_contract : Contract → Db → Db
save_contract c db = record db { contracts = put (λ (r : Contract). r.id) c db.contracts }

abbrev pub save_renewal : RenewalOpportunity → Db → Db
save_renewal r db = record db { renewals = put (λ (x : RenewalOpportunity). x.id) r db.renewals }

abbrev pub add_history : ApplicationStatusHistory → Db → Db
add_history h db = record db { history = db.history ++ h ∷ [] }

abbrev pub add_audit : AuditEvent → Db → Db
add_audit e db = record db { audit = db.audit ++ e ∷ [] }

-- `db.get(models.Application, k)`, or the object of the session that stands for it
abbrev pub get_application : ℕ → Db → Option Application
get_application k db = row (λ (r : Application). r.id) k db.applications

abbrev pub get_funding : ℕ → Db → Option Funding
get_funding k db = row (λ (r : Funding). r.id) k db.fundings
