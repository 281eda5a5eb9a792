-- ===== src/Idempotency/Tests.antt =====
-- A lock, and the theorem at a concrete input.
use Prim.Native.Nat.{◌^◌}
use moneybee_backend.Base.{ℕ, ◌≡◌, refl, arith, ◌<◌, ◌≤◌, List, [], ◌∷◌, take}
use moneybee_backend.Base.Int.{negsuc, above, below, difference}
use moneybee_backend.Idempotency.{KeyHash, int_from_bytes, as_signed, postgres_lock_id}
use moneybee_backend.Idempotency.Locks.{to_bytes, unsigned, to_bytes-postgres_lock_id}

abbrev digest : List ℕ
digest = 255 ∷ 255 ∷ 255 ∷ 255 ∷ 255 ∷ 255 ∷ 255 ∷ 254 ∷ 7 ∷ 9 ∷ []

abbrev hash : KeyHash
hash = record { sha256 = λ _ _ _. digest }

-- the top bit makes it negative
negative_lock : postgres_lock_id hash "ops" "/leads" "key-0001" ≡ negsuc 1
unfolding postgres_lock_id as_signed int_from_bytes difference
negative_lock = refl

to_bytes-postgres_lock_id_example :
    (above (postgres_lock_id hash "ops" "/leads" "key-0001") < 2 ^ 63)
    × (below (postgres_lock_id hash "ops" "/leads" "key-0001") ≤ 2 ^ 63)
    × (to_bytes 8 (unsigned (postgres_lock_id hash "ops" "/leads" "key-0001")) [] ≡ take 8 digest)
to_bytes-postgres_lock_id_example =
    to_bytes-postgres_lock_id hash "ops" "/leads" "key-0001" (omega arith) (
      omega arith,
      (
        omega arith,
        (
          omega arith,
          (
            omega arith,
            (
              omega arith,
              (omega arith, (omega arith, (omega arith, (omega arith, (omega arith, tt))))),
            ),
          ),
        ),
      ),
    )
