-- ===== src/Idempotency/Locks.antt =====
-- What the lock's number in app/idempotency.py says about the key's hash.
use Prim.Native.Nat.{◌^◌}
use moneybee_backend.Base.{
  ℕ, zero, suc, ◌+◌, ◌-◌, ◌*◌, ◌/◌, ◌%◌, ◌≤◌, ◌<◌, ◌≡◌, refl, arith, String, false, List, [], ◌∷◌,
  ◌++◌, All, length, take, ltb, leb, Bool-cases, inl, inr, ap, subst, ◌∙◌, append-nil,
}
use moneybee_backend.Base.Int.{ℤ, pos, negsuc, difference, above, below}
use moneybee_backend.Idempotency.{KeyHash, int_from_bytes, as_signed, postgres_lock_id}

-- the lowest bytes of a number, put before a list
unfoldable pub to_bytes : ℕ → ℕ → List ℕ → List ℕ
to_bytes zero value rest = rest
to_bytes (suc n) value rest = to_bytes n (value / 256) (value % 256 ∷ rest)

-- the number modulo two to the 64, which has the same 64 bits
abbrev pub unsigned : ℤ → ℕ
unsigned (pos n) = n
unsigned (negsuc n) = 2 ^ 64 - (n + 1)

to_bytes-int_from_bytes :
    (bytes : List ℕ) (n value : ℕ) (rest : List ℕ)
    → All (λ b. b < 256) bytes
    → to_bytes (length bytes + n) (int_from_bytes value bytes) rest
      ≡ to_bytes n value (bytes ++ rest)
unfolding to_bytes int_from_bytes
to_bytes-int_from_bytes [] n value rest small =
    let none_left : 0 + n ≡ n = omega arith in ap (λ m. to_bytes m value rest) none_left
to_bytes-int_from_bytes (b ∷ bytes) n value rest small =
    let more : suc (length bytes) + n ≡ length bytes + suc n = omega arith in
    let high : (value * 256 + b) / 256 ≡ value = omega (arith, small.0) in
    let low : (value * 256 + b) % 256 ≡ b = omega (arith, small.0) in
    ap (λ m. to_bytes m (int_from_bytes (value * 256 + b) bytes) rest) more
    ∙ to_bytes-int_from_bytes bytes (suc n) (value * 256 + b) rest small.1
    ∙ ap (λ v. to_bytes n v ((value * 256 + b) % 256 ∷ (bytes ++ rest))) high
    ∙ ap (λ v. to_bytes n value (v ∷ (bytes ++ rest))) low

-- a bound, with eight bits more for each byte
shifted : ℕ → ℕ → ℕ
shifted zero bound = bound
shifted (suc n) bound = shifted n (bound * 256)

int_from_bytes-bound :
    (bytes : List ℕ) (value bound : ℕ)
    → All (λ b. b < 256) bytes
    → value < bound
    → int_from_bytes value bytes < shifted (length bytes) bound
unfolding shifted int_from_bytes
int_from_bytes-bound [] value bound small h = h
int_from_bytes-bound (b ∷ bytes) value bound small h =
    int_from_bytes-bound bytes (value * 256 + b) (bound * 256) small.1 (omega (arith, small.0, h))

length-take_all : (n : ℕ) (xs : List ℕ) → n ≤ length xs → length (take n xs) ≡ n
length-take_all zero xs h = refl
length-take_all (suc n) [] h = absurd (omega (arith, h))
length-take_all (suc n) (x ∷ xs) h = ap suc (length-take_all n xs (omega (arith, h)))

All-take : (P : ℕ → Type 0) (n : ℕ) (xs : List ℕ) → All P xs → All P (take n xs)
All-take P zero xs h = tt
All-take P (suc n) [] h = tt
All-take P (suc n) (x ∷ xs) h = (h.0, All-take P n xs h.1)

as_signed-bounds :
    (value : ℕ)
    → value < 2 ^ 64
    → (above (as_signed value) < 2 ^ 63)
      × (below (as_signed value) ≤ 2 ^ 63)
      × (unsigned (as_signed value) ≡ value)
unfolding as_signed difference
as_signed-bounds value h = elim (Bool-cases (ltb value (2 ^ 63))) [
  | inl low ↦ rw low (ground arith, ground arith, refl)
  | inr high ↦
      let carry : leb (2 ^ 64) value ≡ false = ground arith in
      rw (high, carry) (ground arith, ground arith, ground arith)
]

shifted_eight : shifted 8 1 ≡ 2 ^ 64
unfolding shifted
shifted_eight = refl

to_bytes_none : (bytes : List ℕ) → to_bytes 0 0 (bytes ++ []) ≡ bytes
unfolding to_bytes
to_bytes_none bytes = append-nil bytes

-- The number of the lock is one of the 64-bit integers of PostgreSQL, and the first eight bytes of
-- the hash can be read off it, so that locks of keys whose hashes differ there differ. The hash has
-- at least eight bytes, each below 256.
pub to_bytes-postgres_lock_id :
    (hash : KeyHash) (actor_id route key : String)
    → 8 ≤ length (hash.sha256 actor_id route key)
    → All (λ b. b < 256) (hash.sha256 actor_id route key)
    → (above (postgres_lock_id hash actor_id route key) < 2 ^ 63)
      × (below (postgres_lock_id hash actor_id route key) ≤ 2 ^ 63)
      × (to_bytes 8 (unsigned (postgres_lock_id hash actor_id route key)) []
          ≡ take 8 (hash.sha256 actor_id route key))
unfolding postgres_lock_id
to_bytes-postgres_lock_id hash actor_id route key long small =
    let bytes = take 8 (hash.sha256 actor_id route key) in
    let value = int_from_bytes 0 bytes in
    let eight : length bytes ≡ 8 = length-take_all 8 (hash.sha256 actor_id route key) long in
    let small8 = All-take (λ b. b < 256) 8 (hash.sha256 actor_id route key) small in
    let bound : value < 2 ^ 64 =
      subst (λ n. value < n) shifted_eight
        (subst (λ n. value < shifted n 1) eight
          (int_from_bytes-bound bytes 0 1 small8 (omega arith))) in
    let no_more : length bytes ≡ length bytes + 0 = omega arith in
    let (up, down, same) = as_signed-bounds value bound in
    (
      up,
      down,
      ap (λ v. to_bytes 8 v []) same
          ∙ subst (λ n. to_bytes n value [] ≡ bytes) eight
              (ap (λ n. to_bytes n value []) no_more
                ∙ to_bytes-int_from_bytes bytes 0 0 [] small8
                ∙ to_bytes_none bytes),
    )
