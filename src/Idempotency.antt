-- ===== src/Idempotency.antt =====
-- The advisory lock of an idempotency key: `_postgres_lock_id` and `acquire_idempotency_lock` of
-- app/idempotency.py, with the record that `get_idempotency_record` finds.
pub mod Locks
mod Tests
use Prim.Native.Nat.{◌^◌}
use moneybee_backend.Base.{
  ℕ, ◌+◌, ◌*◌, String, Bool, true, false, ◌&&◌, Option, List, [], ◌∷◌, ◌++◌, find, take, equal, ltb,
  if◌then◌else◌,
}
use moneybee_backend.Base.Int.{ℤ, pos, difference}
use moneybee_backend.Base.Text.{String-discrete}

-- the SHA-256 of the UTF-8 text of an actor, a route and a key with zero characters between them
pub record KeyHash : Type 0 where
  pub sha256 : String → String → String → List ℕ

-- `int.from_bytes(…, "big", signed=False)`, after the bytes whose value is the first argument
unfoldable pub int_from_bytes : ℕ → List ℕ → ℕ
int_from_bytes value [] = value
int_from_bytes value (b ∷ rest) = int_from_bytes (value * 256 + b) rest

-- `value if value < 2**63 else value - 2**64`
unfoldable pub as_signed : ℕ → ℤ
as_signed value = if ltb value (2 ^ 63) then pos value else difference value (2 ^ 64)

unfoldable pub postgres_lock_id : KeyHash → String → String → String → ℤ
postgres_lock_id hash actor_id route key =
    as_signed (int_from_bytes 0 (take 8 (hash.sha256 actor_id route key)))

-- The locks that the transaction holds; `is_postgresql` is the test of the dialect.
unfoldable pub acquire_idempotency_lock :
    Bool → KeyHash → String → String → String → List ℤ → List ℤ
acquire_idempotency_lock is_postgresql hash actor_id route key locks =
    if is_postgresql then locks ++ postgres_lock_id hash actor_id route key ∷ [] else locks

pub record IdempotencyKey : Type 0 where
  pub actor_id : String
  pub route : String
  pub key : String
  pub request_hash : String

abbrev pub is_key : String → String → String → IdempotencyKey → Bool
is_key actor_id route key r =
    equal String-discrete r.actor_id actor_id
    && equal String-discrete r.route route
    && equal String-discrete r.key key

unfoldable pub get_idempotency_record :
    String → String → String → List IdempotencyKey → Option IdempotencyKey
get_idempotency_record actor_id route key records = find (is_key actor_id route key) records
