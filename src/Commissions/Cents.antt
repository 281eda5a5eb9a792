-- ===== src/Commissions/Cents.antt =====
-- Amounts of the commission routes of app/admin_routes.py. The schemas accept a decimal with any number
-- of places; the columns of app/models.py have two, and the database rounds what is stored.
use moneybee_backend.Base.{ℕ, ◌+◌, Bool, not, ◌||◌, ltb, ◌==◌, if◌then◌else◌}
use moneybee_backend.Base.Int.{ℤ, pos, ◌+ℤ◌, lez}

-- whole cents, rounded down, and what is left below a cent, in a unit as fine as the decimals
pub record SignedAmount : Type 0 where
  pub cents : ℤ
  pub rest : ℕ

-- the same, where the amount is not negative
pub record Amount : Type 0 where
  pub cents : ℕ
  pub rest : ℕ

-- one cent if a rest is there
abbrev pub carry : ℕ → ℕ
carry rest = if rest == 0 then 0 else 1

-- What the column adds to the whole cents: nothing to a whole amount, and otherwise nothing or one
-- cent. `up` says which of the two neighbours the database takes.
abbrev pub rounding : Bool → ℕ → ℕ
rounding up rest = if rest == 0 then 0 else if up then 1 else 0

abbrev pub stored_signed : Bool → SignedAmount → ℤ
stored_signed up a = a.cents +ℤ pos (rounding up a.rest)

abbrev pub stored : Bool → Amount → ℕ
stored up a = a.cents + rounding up a.rest

-- a stored amount and one of a payload, added before anything is stored
abbrev pub net_with : ℤ → SignedAmount → SignedAmount
net_with net a = record { cents = net +ℤ a.cents; rest = a.rest }

abbrev pub sum_with : ℕ → Amount → Amount
sum_with n a = record { cents = n + a.cents; rest = a.rest }

-- `a <= whole` and `whole <= a`, without rounding
abbrev pub at_most : SignedAmount → ℤ → Bool
at_most a whole = lez (a.cents +ℤ pos (carry a.rest)) whole

abbrev pub at_least : SignedAmount → ℤ → Bool
at_least a whole = lez whole a.cents

abbrev pub fits : Amount → ℤ → Bool
fits a whole = lez (pos (a.cents + carry a.rest)) whole

abbrev pub reaches : Amount → ℤ → Bool
reaches a whole = lez whole (pos a.cents)

abbrev pub is_some_money : Amount → Bool
is_some_money a = ltb 0 a.cents || not (a.rest == 0)
