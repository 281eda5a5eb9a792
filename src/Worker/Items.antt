-- ===== src/Worker/Items.antt =====
-- Leases and retries of the items that the worker hands to providers: `_lease_provider_item`,
-- `_provider_failed`, `_provider_succeeded` and `provider_retry_delay_seconds` of app/worker.py, and
-- the test in the queries for such items.
pub mod Delays
use Prim.Native.Nat.{◌^◌}
use moneybee_backend.Base.{
  ℕ, ◌+◌, ◌/◌, ◌%◌, String, Bool, true, false, ◌&&◌, Option, none, some, ltb, leb, if◌then◌else◌,
}
use moneybee_backend.Worker.Outbox.{is_due, is_over}

-- the `provider_…` columns of a contract or a document
pub record ProviderState : Type 0 where
  pub attempt_count : ℕ
  pub last_error : Option String
  pub next_attempt_at : Option ℕ
  pub terminal_at : Option ℕ
  pub lease_owner : Option String
  pub lease_expires_at : Option ℕ

-- `WORKER_ID`, the time, and the first two bytes of the SHA-256 of an id and a count, as a number
pub record WorkerHost : Type 0 where
  pub worker : String
  pub now : ℕ
  pub digest : ℕ → ℕ → ℕ

abbrev pub minimum : ℕ → ℕ → ℕ
minimum a b = if leb a b then a else b

abbrev pub maximum : ℕ → ℕ → ℕ
maximum a b = if leb a b then b else a

-- `min(3600, 2 ** max(1, attempt_count))`
unfoldable pub base_delay : ℕ → ℕ
base_delay attempt_count = minimum 3600 (2 ^ maximum 1 attempt_count)

unfoldable pub provider_retry_delay_seconds : (ℕ → ℕ → ℕ) → ℕ → ℕ → ℕ
provider_retry_delay_seconds digest item_id attempt_count =
    let base = base_delay attempt_count in
    minimum 3600 (base + digest item_id attempt_count % (base / 4 + 1))

abbrev pub is_null : {A : Type 0} → Option A → Bool
is_null none = true
is_null (some _) = false

-- the part of the query that is the same for contracts and documents
unfoldable pub is_ready : ℕ → ProviderState → Bool
is_ready now p =
    is_null p.terminal_at && is_due now p.next_attempt_at && is_over now p.lease_expires_at

unfoldable pub lease_provider_item : WorkerHost → ProviderState → ProviderState
lease_provider_item host p = record p {
  lease_owner = some host.worker;
  lease_expires_at = some (host.now + 120);
  attempt_count = p.attempt_count + 1;
}

-- The error is a text that is already cut at 1000 characters.
unfoldable pub provider_failed : WorkerHost → ℕ → String → ProviderState → ProviderState
provider_failed host item_id error p =
    if leb 8 p.attempt_count
    then record p {
      last_error = some error;
      lease_owner = none;
      lease_expires_at = none;
      terminal_at = some host.now;
      next_attempt_at = none;
    }
    else record p {
      last_error = some error;
      lease_owner = none;
      lease_expires_at = none;
      next_attempt_at =
          some (host.now + provider_retry_delay_seconds host.digest item_id p.attempt_count);
    }

unfoldable pub provider_succeeded : ProviderState → ProviderState
provider_succeeded p = record p {
  last_error = none;
  next_attempt_at = none;
  lease_owner = none;
  lease_expires_at = none;
}
