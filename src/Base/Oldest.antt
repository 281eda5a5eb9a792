-- ===== src/Base/Oldest.antt =====
-- The oldest row that passes a test, as a query with `ORDER BY created_at LIMIT 1` gives it.
use Prim.Native.Nat.{ℕ, ◌≤◌}
use mathlib.Core.Path.{◌≡◌, refl, subst, sym}
use mathlib.Core.Logic.{◌⊎◌, inl, inr}
use mathlib.Core.Bool.{Bool, true, false, not, ◌||◌}
use mathlib.Core.List.{List, [], ◌∷◌}
use mathlib.Core.Option.{Option, none, some}
use native.Mathlib.Omega.{arith}
use moneybee_backend.Base.Tests.{◌==◌, ==_refl, leb, if◌then◌else◌, if_true, if_false, Bool-cases}
use moneybee_backend.Base.Lists.{All}
use moneybee_backend.Base.Rows.{row, rows_with, IsKeyed}

module _ {A : Type 0} where
  -- the row is one of the list
  abbrev pub Listed : A → List A → Type 0
  Listed e [] = ⊥
  Listed e (x ∷ xs) = (x ≡ e) ⊎ Listed e xs

  pub All-Listed {κ} : (P : A → Type κ) (e : A) (es : List A) → Listed e es → All P es → P e
  All-Listed P e [] h all = elim h [ ]
  All-Listed P e (x ∷ es) (inl same) all = subst P same all.0
  All-Listed P e (x ∷ es) (inr later) all = All-Listed P e es later all.1

  module _ (key : A → ℕ) where
    Listed-rows_with : (e : A) (es : List A) → Listed e es → 1 ≤ rows_with key (key e) es
    Listed-rows_with e [] h = elim h [ ]
    Listed-rows_with e (x ∷ es) (inl same) =
        subst (λ y. 1 ≤ rows_with key (key y) (x ∷ es)) same (ground arith)
    Listed-rows_with e (x ∷ es) (inr later) = omega (arith, Listed-rows_with e es later)

    -- With unique ids the listed row is the row with its id.
    pub Listed-row :
        (e : A) (es : List A) → IsKeyed key es → Listed e es → row key (key e) es ≡ some e
    Listed-row e [] keyed h = elim h [ ]
    Listed-row e (x ∷ es) keyed (inl same) =
        subst (λ y. row key (key y) (x ∷ es) ≡ some y) same (rw (==_refl (key x)) refl)
    Listed-row e (x ∷ es) keyed (inr later) =
        let found = Listed-row e es (λ k. omega (arith, keyed k)) later in
        let once = keyed (key e) in
        let more = Listed-rows_with e es later in
        elim (Bool-cases ((key x) == (key e))) [
          | inl here ↦ absurd (ground arith)
          | inr other ↦ rw other found
        ]

  module _ (created : A → ℕ) where
    abbrev pub older : A → Option A → A
    older e none = e
    older e (some f) = if leb (created e) (created f) then e else f

    unfoldable pub oldest : (A → Bool) → List A → Option A
    oldest p [] = none
    oldest p (e ∷ es) = let rest = oldest p es in if p e then some (older e rest) else rest

    -- what a query for the oldest row that passes a test gives
    abbrev pub Picks : (A → Bool) → List A → Option A → Type 0
    Picks p es none = All (λ e. p e ≡ false) es
    Picks p es (some e) =
        (p e ≡ true) × Listed e es × All (λ f. (not (p f) || leb (created e) (created f)) ≡ true) es

    All-weaken :
        (p : A → Bool) (e f : A) (es : List A)
        → leb (created e) (created f) ≡ true
        → All (λ x. (not (p x) || leb (created f) (created x)) ≡ true) es
        → All (λ x. (not (p x) || leb (created e) (created x)) ≡ true) es
    All-weaken p e f [] le h = tt
    All-weaken p e f (x ∷ es) le h = (ground arith, All-weaken p e f es le h.1)

    All-none :
        (p : A → Bool) (e : A) (es : List A)
        → All (λ x. p x ≡ false) es
        → All (λ x. (not (p x) || leb (created e) (created x)) ≡ true) es
    All-none p e [] h = tt
    All-none p e (x ∷ es) h = (ground arith, All-none p e es h.1)

    older-Picks :
        (p : A → Bool) (e : A) (es : List A) (o : Option A)
        → p e ≡ true
        → Picks p es o
        → Picks p (e ∷ es) (some (older e o))
    older-Picks p e es none passes h = (passes, inl refl, (ground arith, All-none p e es h))
    older-Picks p e es (some f) passes (pf, listed, first) =
        elim (Bool-cases (leb (created e) (created f))) [
          | inl before ↦
              subst (λ x. Picks p (e ∷ es) (some x)) (sym (if_true e f before))
                (passes, inl refl, (ground arith, All-weaken p e f es before first))
          | inr after ↦
              subst (λ x. Picks p (e ∷ es) (some x)) (sym (if_false e f after))
                (pf, inr listed, (ground arith, first))
        ]

    skip-Picks :
        (p : A → Bool) (e : A) (es : List A) (o : Option A)
        → p e ≡ false
        → Picks p es o
        → Picks p (e ∷ es) o
    skip-Picks p e es none fails h = (fails, h)
    skip-Picks p e es (some f) fails (pf, listed, first) = (pf, inr listed, (ground arith, first))

    pub oldest-Picks : (p : A → Bool) (es : List A) → Picks p es (oldest p es)
    unfolding oldest
    oldest-Picks p [] = tt
    oldest-Picks p (e ∷ es) = elim (Bool-cases (p e)) [
      | inl passes ↦ rw passes (older-Picks p e es (oldest p es) passes (oldest-Picks p es))
      | inr fails ↦ rw fails (skip-Picks p e es (oldest p es) fails (oldest-Picks p es))
    ]
