-- ===== src/ContractVoid/Tests.antt =====
-- Runs of a void, and the theorems at concrete inputs.
use moneybee_backend.Base.{◌≡◌, ◌≤◌, ◌+◌, refl, none, some, [], ◌∷◌}
use moneybee_backend.Lifecycle.Status.{ContractStatus}
use moneybee_backend.ContractVoid.{
  VoidDb, ESignAdapter, TextHost, provider_error, answered, provider_status, exception_for_contract,
  record_unknown_outcome, resolve_exception, ensure_provider_void_confirmed, void_envelope,
  envelope_status,
}
use moneybee_backend.ContractVoid.Outcomes.{Ends, ensure_provider_void_confirmed-Ends}
use moneybee_backend.ContractVoid.Retry.{voids, budget, retry, retry-voids}

abbrev host : TextHost
host = record { strip = λ s. s; lower = λ s. s; remove_prefix = λ s. s; now = 900 }

-- The provider loses the request to void and does not answer the read-back.
abbrev silent : ESignAdapter
silent = record { voids = provider_error; reads = provider_error }

abbrev late : ESignAdapter
late = record {
  voids = provider_error;
  reads = answered (some (record { status = some "voided"; envelope_status = none }));
}

abbrev sent : VoidDb
sent = record {
  contract = record {
    id = 5;
    status = ContractStatus.sent;
    external_envelope_id = some "envelope";
    provider_attempt_count = 0;
    provider_last_error = none;
    provider_next_attempt_at = none;
    provider_terminal_at = none;
    provider_lease_owner = none;
    provider_lease_expires_at = none;
  };
  exceptions = [];
  audit = [];
  calls = [];
}

-- one request to void, then read-backs only
retry_run :
    (retry host (silent ∷ silent ∷ late ∷ late ∷ []) sent).calls
    ≡ void_envelope ∷ envelope_status ∷ envelope_status ∷ envelope_status ∷ []
unfolding provider_status exception_for_contract record_unknown_outcome resolve_exception
    ensure_provider_void_confirmed
retry_run = refl

ensure_provider_void_confirmed-Ends_example :
    Ends host late sent (ensure_provider_void_confirmed host late sent)
ensure_provider_void_confirmed-Ends_example =
    ensure_provider_void_confirmed-Ends host late sent refl

retry-voids_example :
    voids (retry host (silent ∷ silent ∷ late ∷ []) sent).calls ≤ voids sent.calls + budget sent
retry-voids_example = retry-voids host (silent ∷ silent ∷ late ∷ []) sent
