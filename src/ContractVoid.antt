-- ===== src/ContractVoid.antt =====
-- Voiding a contract that was sent for signature, app/contract_void_service.py, with the rows of
-- app/models.py and app/integration_models.py that it changes. The session is seen as far as one
-- contract needs it; `calls` is what was asked of the provider.
pub mod Outcomes
pub mod Retry
mod Tests
use moneybee_backend.Base.{
  ℕ, ◌+◌, String, Bool, true, false, not, Option, none, some, List, [], ◌∷◌, ◌++◌, equal, put, row,
  if◌then◌else◌, ◌&&◌, ◌||◌,
}
use moneybee_backend.Base.Text.{String-discrete}
use moneybee_backend.Base.Action.{Action, pure, raise, ◌>>=◌, ◌>>◌, gets, modify}
use moneybee_backend.Lifecycle.Status.{ContractStatus}

pub record ProviderContract : Type 0 where
  pub id : ℕ
  pub status : ContractStatus
  pub external_envelope_id : Option String
  pub provider_attempt_count : ℕ
  pub provider_last_error : Option String
  pub provider_next_attempt_at : Option ℕ
  pub provider_terminal_at : Option ℕ
  pub provider_lease_owner : Option String
  pub provider_lease_expires_at : Option ℕ

pub data ExceptionStatus : Type 0 where
  opened resolved : ExceptionStatus
  other : String → ExceptionStatus

-- The exceptions with the code `CONTRACT_VOID_OUTCOME_UNKNOWN`: the fingerprint is the code and the
-- contract's id, so the id stands for it. A comment is the status that was observed.
pub record OperationalException : Type 0 where
  pub fingerprint : ℕ
  pub status : ExceptionStatus
  pub resolution : Option String
  pub resolved_at : Option ℕ
  pub comments : List (Option String)

pub data ProviderCall : Type 0 where
  void_envelope envelope_status : ProviderCall

-- the audit row, by the contract and the `attempted_mutations` of its details
pub record Reconciled : Type 0 where
  pub resource_id : ℕ
  pub attempted_mutations : ℕ

pub record VoidDb : Type 0 where
  pub contract : ProviderContract
  pub exceptions : List OperationalException
  pub audit : List Reconciled
  pub calls : List ProviderCall

-- the `problem` with its HTTP status
pub data VoidProblem : Type 0 where
  reconciliation_required : ℕ → VoidProblem

abbrev pub VoidAction : Type 0
VoidAction = Action VoidDb VoidProblem (Unit {0})

-- the two keys of a provider's answer that are read
pub record Payload : Type 0 where
  pub status : Option String
  pub envelope_status : Option String

-- an answer that is no dictionary is `answered none`
pub data Answer : Type 0 where
  provider_error : Answer
  answered : Option Payload → Answer

-- The e-sign adapter in one call: what it answers to each of the two requests.
pub record ESignAdapter : Type 0 where
  pub voids : Answer
  pub reads : Answer

-- `str.strip`, `str.lower`, `str.removeprefix("envelope-")` and the time
pub record TextHost : Type 0 where
  pub strip : String → String
  pub lower : String → String
  pub remove_prefix : String → String
  pub now : ℕ

-- `bool(value)`
abbrev pub is_truthy : Option String → Bool
is_truthy none = false
is_truthy (some s) = not (equal String-discrete s "")

abbrev pub normalized : TextHost → Option String → Option String
normalized host none = none
normalized host (some value) = some (host.remove_prefix (host.lower (host.strip value)))

unfoldable pub provider_status : TextHost → Option Payload → Option String
provider_status host none = none
provider_status host (some payload) =
    normalized host (if is_truthy payload.status then payload.status else payload.envelope_status)

abbrev pub clear_provider_failure : ProviderContract → ProviderContract
clear_provider_failure contract = record contract {
  provider_last_error = none;
  provider_next_attempt_at = none;
  provider_terminal_at = none;
  provider_lease_owner = none;
  provider_lease_expires_at = none;
}

unfoldable pub exception_for_contract : VoidDb → Option OperationalException
exception_for_contract db = row (λ x. x.fingerprint) db.contract.id db.exceptions

abbrev pub reopened : OperationalException → Option String → OperationalException
reopened x observed = record x {
  status = opened;
  resolution = none;
  resolved_at = none;
  comments = x.comments ++ observed ∷ [];
}

abbrev pub blocked_contract : TextHost → ProviderContract → ProviderContract
blocked_contract host contract = record contract {
  provider_last_error = some "E-sign void outcome requires provider read-back";
  provider_next_attempt_at = none;
  provider_terminal_at = some host.now;
  provider_lease_owner = none;
  provider_lease_expires_at = none;
}

abbrev pub open_exception :
    ℕ
    → Option OperationalException
    → Option String
    → List OperationalException
    → List OperationalException
open_exception id none observed rows =
    rows
    ++ record {
      fingerprint = id;
      status = opened;
      resolution = none;
      resolved_at = none;
      comments = observed ∷ [];
    }
      ∷ []
open_exception id (some x) observed rows = put (λ y. y.fingerprint) (reopened x observed) rows

unfoldable pub record_unknown_outcome : TextHost → Option String → VoidDb → VoidDb
record_unknown_outcome host observed db = record db {
  contract = blocked_contract host db.contract;
  exceptions = open_exception db.contract.id (exception_for_contract db) observed db.exceptions;
}

abbrev pub is_opened : ExceptionStatus → Bool
is_opened opened = true
is_opened resolved = false
is_opened (other _) = false

abbrev pub has_open : Option OperationalException → Bool
has_open none = false
has_open (some x) = is_opened x.status

abbrev pub resolved_exception : TextHost → OperationalException → OperationalException
resolved_exception host x = record x {
  status = resolved;
  resolution = some "Provider read-back confirmed the envelope is voided.";
  resolved_at = some host.now;
}

abbrev pub resolve_rows :
    TextHost → Option OperationalException → List OperationalException → List OperationalException
resolve_rows host none rows = rows
resolve_rows host (some x) rows =
    if is_opened x.status then put (λ y. y.fingerprint) (resolved_exception host x) rows else rows

unfoldable pub resolve_exception : TextHost → VoidDb → VoidDb
resolve_exception host db = record db {
  exceptions = resolve_rows host (exception_for_contract db) db.exceptions;
}

abbrev pub record_reconciliation_evidence : VoidDb → VoidDb
record_reconciliation_evidence db = record db {
  audit =
      db.audit
      ++ record {
        resource_id = db.contract.id;
        attempted_mutations = db.contract.provider_attempt_count;
      }
        ∷ [];
}

abbrev pub settle : VoidDb → VoidDb
settle db = record db {
  contract = record (clear_provider_failure db.contract) { provider_attempt_count = 0 };
}

-- the three steps that follow a read-back of `voided`
abbrev pub reconcile : TextHost → VoidDb → VoidDb
reconcile host db = resolve_exception host (settle (record_reconciliation_evidence db))

abbrev pub is_voided : Option String → Bool
is_voided none = false
is_voided (some s) = equal String-discrete s "voided"

abbrev pub log_call : ProviderCall → VoidDb → VoidDb
log_call call db = record db { calls = db.calls ++ call ∷ [] }

abbrev pub block : TextHost → Option String → ℕ → VoidAction
block host observed status =
    modify (record_unknown_outcome host observed) >> raise (reconciliation_required status)

-- the branch under an open exception, after the request for the status
abbrev pub read_back : TextHost → Answer → VoidAction
read_back host provider_error = block host none 503
read_back host (answered payload) =
    if is_voided (provider_status host payload)
    then modify (reconcile host)
    else block host (provider_status host payload) 409

-- the last part, after the request for the status that follows a `ProviderError`
abbrev pub read_after_error : TextHost → Answer → VoidAction
read_after_error host provider_error = block host none 503
read_after_error host (answered payload) =
    if is_voided (provider_status host payload)
    then modify (reconcile host)
    else block host (provider_status host payload) 503

-- `observed in {None, "voided"}`
abbrev pub is_definite : Option String → Bool
is_definite none = true
is_definite (some s) = equal String-discrete s "voided"

-- the part after the request to void
abbrev pub after_void : TextHost → ESignAdapter → Answer → VoidAction
after_void host adapter provider_error =
    modify (log_call envelope_status) >> read_after_error host adapter.reads
after_void host adapter (answered payload) =
    if is_definite (provider_status host payload)
    then modify settle
    else block host (provider_status host payload) 503

abbrev pub count_attempt : VoidDb → VoidDb
count_attempt db = record db {
  contract = record db.contract { provider_attempt_count = db.contract.provider_attempt_count + 1 };
}

abbrev pub is_sent : ContractStatus → Bool
is_sent ContractStatus.sent = true
is_sent _ = false

-- the guard at the start, negated
abbrev pub needs_void : ProviderContract → Bool
needs_void contract = is_sent contract.status && is_truthy contract.external_envelope_id

-- the body after the guard, by whether the exception is open
abbrev pub void_or_read : TextHost → ESignAdapter → Bool → VoidAction
void_or_read host adapter true = modify (log_call envelope_status) >> read_back host adapter.reads
void_or_read host adapter false =
    modify count_attempt >> modify (log_call void_envelope) >> after_void host adapter adapter.voids

unfoldable pub ensure_provider_void_confirmed : TextHost → ESignAdapter → VoidAction
ensure_provider_void_confirmed host adapter db =
    (if needs_void db.contract
        then void_or_read host adapter (has_open (exception_for_contract db))
        else pure tt)
      db
