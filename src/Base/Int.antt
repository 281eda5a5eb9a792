-- ===== src/Base/Int.antt =====
-- Signed amounts: the integers over the native numbers, with their tests.
use Prim.Native.Nat.{ℕ, ◌+◌, ◌-◌}
use mathlib.Core.Path.{◌≡◌, ap}
use mathlib.Core.Bool.{Bool}
use mathlib.Core.Logic.{inl, inr}
use native.Mathlib.Omega.{arith}
use moneybee_backend.Base.Tests.{leb, if◌then◌else◌, Bool-cases}

pub data ℤ : Type 0 where
  pos : ℕ → ℤ
  negsuc : ℕ → ℤ

-- a number is the difference of these two
abbrev pub above : ℤ → ℕ
above (pos n) = n
above (negsuc n) = 0

abbrev pub below : ℤ → ℕ
below (pos n) = 0
below (negsuc n) = n + 1

unfoldable pub difference : ℕ → ℕ → ℤ
difference a b = if leb b a then pos (a - b) else negsuc (b - a - 1)

infixl 50 ◌+ℤ◌
abbrev pub ◌+ℤ◌ : ℤ → ℤ → ℤ
a +ℤ b = difference (above a + above b) (below a + below b)

-- `a <= b`
abbrev pub lez : ℤ → ℤ → Bool
lez a b = leb (above a + below b) (above b + below a)

pub difference_lem : (a b : ℕ) → above (difference a b) + b ≡ a + below (difference a b)
unfolding difference
difference_lem a b = elim (Bool-cases (leb b a)) [
  | inl le ↦ rw le (ground arith)
  | inr gt ↦ rw gt (ground arith)
]

-- Numbers with the same difference are the same.
pub difference_unique : (a b : ℤ) → above a + below b ≡ above b + below a → a ≡ b
difference_unique (pos m) (pos n) h = ap pos (omega (arith, h))
difference_unique (pos m) (negsuc n) h = absurd (omega (arith, h))
difference_unique (negsuc m) (pos n) h = absurd (omega (arith, h))
difference_unique (negsuc m) (negsuc n) h = ap negsuc (omega (arith, h))

pub +ℤ_assoc : (a b c : ℤ) → (a +ℤ b) +ℤ c ≡ a +ℤ (b +ℤ c)
+ℤ_assoc a b c = difference_unique ((a +ℤ b) +ℤ c) (a +ℤ (b +ℤ c)) (
    omega (
      arith,
      difference_lem (above a + above b) (below a + below b),
      difference_lem (above b + above c) (below b + below c),
      difference_lem (above (a +ℤ b) + above c) (below (a +ℤ b) + below c),
      difference_lem (above a + above (b +ℤ c)) (below a + below (b +ℤ c)),
    ))

pub +ℤ_comm : (a b : ℤ) → a +ℤ b ≡ b +ℤ a
+ℤ_comm a b = difference_unique (a +ℤ b) (b +ℤ a) (
    omega (
      arith,
      difference_lem (above a + above b) (below a + below b),
      difference_lem (above b + above a) (below b + below a),
    ))
