-- ===== src/Base/Rows.antt =====
-- A table of rows with a primary key, as a session sees it.
use mathlib.Core.Path.{◌≡◌, refl, ap}
use mathlib.Core.Logic.{◌≢◌, inl, inr}
use mathlib.Core.List.{List, [], ◌∷◌}
use mathlib.Core.Option.{Option, none, some}
use native.Mathlib.Omega.{arith}
use Prim.Native.Nat.{ℕ, ◌+◌, ◌≤◌}
use moneybee_backend.Base.Tests.{◌==◌, if◌then◌else◌, Bool-cases}

module _ {A : Type 0} (key : A → ℕ) where
  -- `db.get(A, k)`
  abbrev pub row : ℕ → List A → Option A
  row k [] = none
  row k (r ∷ rs) = if key r == k then some r else row k rs

  -- An object of the session is the row with its key: what is assigned to it is assigned to the row.
  abbrev pub put : A → List A → List A
  put a [] = []
  put a (r ∷ rs) = (if key r == key a then a else r) ∷ put a rs

  pub row-put_self :
      (a : A) (old : A) (rs : List A) → row (key a) rs ≡ some old → row (key a) (put a rs) ≡ some a
  row-put_self a old [] h = cc
  row-put_self a old (r ∷ rs) h = ground (arith, row-put_self a old rs)

  pub row-put_ne : (a : A) (k : ℕ) (rs : List A) → k ≢ key a → row k (put a rs) ≡ row k rs
  row-put_ne a k [] h = refl
  row-put_ne a k (r ∷ rs) h = ground (arith, row-put_ne a k rs)

  -- the row that a key finds has that key
  pub key-row : (k : ℕ) (a : A) (rs : List A) → row k rs ≡ some a → key a ≡ k
  key-row k a [] h = cc
  key-row k a (r ∷ rs) h = ground (arith, key-row k a rs)

  -- how many rows have the key; the primary key is unique if none has more than one
  abbrev pub rows_with : ℕ → List A → ℕ
  rows_with k [] = 0
  rows_with k (r ∷ rs) = (if key r == k then 1 else 0) + rows_with k rs

  abbrev pub IsKeyed : List A → Type 0
  IsKeyed rs = (k : ℕ) → rows_with k rs ≤ 1

  pub rows_with-put : (k : ℕ) (a : A) (rs : List A) → rows_with k (put a rs) ≡ rows_with k rs
  rows_with-put k a [] = refl
  rows_with-put k a (r ∷ rs) = ground (arith, rows_with-put k a rs)

  pub row-rows_with : (k : ℕ) (a : A) (rs : List A) → row k rs ≡ some a → 1 ≤ rows_with k rs
  row-rows_with k a [] h = cc
  row-rows_with k a (r ∷ rs) h = ground (arith, row-rows_with k a rs)

  put_none : (a : A) (rs : List A) → rows_with (key a) rs ≡ 0 → put a rs ≡ rs
  put_none a [] h = refl
  put_none a (r ∷ rs) h = elim (Bool-cases (key r == key a)) [
    | inl same ↦ absurd (ground arith)
    | inr other ↦ rw other (ap (λ l. r ∷ l) (put_none a rs (ground arith)))
  ]

  module _ (f : A → ℕ) where
    abbrev pub sum_rows : List A → ℕ
    sum_rows [] = 0
    sum_rows (r ∷ rs) = f r + sum_rows rs

    -- Saving a row moves the sum by what the row itself gained.
    pub sum_rows-put :
        (a old : A) (rs : List A)
        → row (key a) rs ≡ some old
        → rows_with (key a) rs ≤ 1
        → sum_rows (put a rs) + f old ≡ sum_rows rs + f a
    sum_rows-put a old [] h one = cc
    sum_rows-put a old (r ∷ rs) h one = elim (Bool-cases (key r == key a)) [
      | inl here ↦
          let same : r ≡ old = cc (rw here at h) in
          let rest = put_none a rs (ground arith) in rw (here, rest, same) (omega arith)
      | inr later ↦
          let rest = sum_rows-put a old rs (rw later at h) (ground arith) in
          rw later (omega (arith, rest))
    ]
