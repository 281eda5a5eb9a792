-- ===== src/Commissions/Account.antt =====
-- A commission as its routes promise it: a net amount that covers what was received and what was
-- divided among recipients, with the changes that are allowed.
use moneybee_backend.Base.{
  ℕ, ◌+◌, ◌≡◌, refl, arith, Bool, true, not, ◌&&◌, Option, none, some, List, inl, inr, ◌⊎◌, ◌≤◌,
  ltb, ◌==◌, ◌||◌, if◌then◌else◌,
}
use moneybee_backend.Base.Int.{ℤ, pos, ◌+ℤ◌, lez, above, below, difference_lem}
use moneybee_backend.Commissions.Cents.{carry, rounding}
use moneybee_backend.Commissions.Requests.{Request, adjusts, receives, divides, pays, commission_of}
use moneybee_backend.Commissions.Rows.{
  CommissionStatus, received, partially_received, expected, Commission, CommissionAdjustment,
  CommissionSplit, CommissionDb, commission_row, adjustments_total, split_total,
}

pub record Account : Type 0 where
  pub net : ℤ
  pub received_amount : ℕ
  pub shares : ℕ
  pub status : CommissionStatus

-- A receipt, a share or an adjustment has whole cents, a rest below a cent, and the side that the
-- rest is rounded to when it is stored.
pub data Change : Type 0 where
  stays : Change
  adjusts_by : ℤ → ℕ → Bool → Change
  receives_more shares_more : ℕ → ℕ → Bool → Change

-- With its rest, the change keeps the received amount and the shares within the net amount, and an
-- adjusted net amount above zero.
abbrev pub allows : Change → Account → Bool
allows stays a = true
allows (adjusts_by x rest up) a =
    not (lez ((a.net +ℤ x) +ℤ pos (carry rest)) (pos 0))
    && lez (pos a.received_amount) (a.net +ℤ x)
    && lez (pos a.shares) (a.net +ℤ x)
allows (receives_more n rest up) a = lez (pos ((a.received_amount + n) + carry rest)) a.net
allows (shares_more n rest up) a = lez (pos ((a.shares + n) + carry rest)) a.net

-- the status for what was received: the whole net amount, some of it, or nothing
abbrev pub status_due : Bool → Bool → CommissionStatus → CommissionStatus
status_due whole some_money otherwise =
    if whole then received else if some_money then partially_received else otherwise

-- The amounts are rounded, the status is that of the amounts with their rest.
abbrev pub change : Change → Account → Account
change stays a = a
change (adjusts_by x rest up) a = record a {
  net = a.net +ℤ (x +ℤ pos (rounding up rest));
  status =
      status_due (lez ((a.net +ℤ x) +ℤ pos (carry rest)) (pos a.received_amount))
        (ltb 0 a.received_amount) expected;
}
change (receives_more n rest up) a = record a {
  received_amount = (a.received_amount + n) + rounding up rest;
  status =
      status_due (lez a.net (pos (a.received_amount + n)))
        (ltb 0 (a.received_amount + n) || not (rest == 0)) a.status;
}
change (shares_more n rest up) a = record a { shares = a.shares + (n + rounding up rest) }

-- what a request asks for
abbrev pub asked : Request → Bool → Change
asked (adjusts k payload) up = adjusts_by payload.amount.cents payload.amount.rest up
asked (receives k payload) up = receives_more payload.amount.cents payload.amount.rest up
asked (divides k payload) up = shares_more payload.amount.cents payload.amount.rest up
asked (pays k split_id payload) up = stays

-- The account of the commission `j` stays; or it is that of the request and changes as the request
-- asks, if that is allowed.
abbrev pub Moves : Request → ℕ → Option Account → Option Account → Type 0
Moves r j none after = after ≡ none
Moves r j (some a) after =
    (after ≡ some a)
    ⊎ ((commission_of r ≡ j)
        × (up : Bool) × (allows (asked r up) a ≡ true)
        × (after ≡ some (change (asked r up) a)))

pub stays-Moves : (r : Request) (j : ℕ) (o : Option Account) → Moves r j o o
stays-Moves r j none = refl
stays-Moves r j (some a) = inl refl

abbrev pub account_found :
    ℕ → List CommissionAdjustment → List CommissionSplit → Option Commission → Option Account
account_found k adjustments splits none = none
account_found k adjustments splits (some c) = some (record {
  net = pos c.expected_amount +ℤ adjustments_total k adjustments;
  received_amount = c.received_amount;
  shares = split_total k splits;
  status = c.status;
})

-- the commission with an id, as it stands in the rows
abbrev pub account : ℕ → CommissionDb → Option Account
account k db = account_found k db.adjustments db.splits (commission_row k db.commissions)

-- The net amount covers what was received, and what was divided.
abbrev pub Covers : Account → Type 0
Covers a = (lez (pos a.received_amount) a.net ≡ true) × (lez (pos a.shares) a.net ≡ true)

rounding-le : (up : Bool) (rest : ℕ) → rounding up rest ≤ carry rest
rounding-le up rest = ground arith

adjusted_bounds :
    (net x : ℤ) (n : ℕ) (up : Bool) (rest : ℕ)
    → lez (pos n) (net +ℤ x) ≡ true
    → lez (pos n) (net +ℤ (x +ℤ pos (rounding up rest))) ≡ true
adjusted_bounds net x n up rest h =
    let r = rounding up rest in
    ground (
      arith,
      difference_lem (above net + above x) (below net + below x),
      difference_lem (above x + r) (below x + 0),
      difference_lem (above net + above (x +ℤ pos r)) (below net + below (x +ℤ pos r)),
    )

pub change-Covers : (x : Change) (a : Account) → allows x a ≡ true → Covers a → Covers (change x a)
change-Covers stays a may s = s
change-Covers (adjusts_by x rest up) a may (covered, shared) = (
  adjusted_bounds a.net x a.received_amount up rest ground arith,
  adjusted_bounds a.net x a.shares up rest ground arith,
)
change-Covers (receives_more n rest up) a may (covered, shared) =
    let small = rounding-le up rest in (ground arith, shared)
change-Covers (shares_more n rest up) a may (covered, shared) =
    let small = rounding-le up rest in (covered, ground arith)

pub Moves-Covers :
    (r : Request) (j : ℕ) (a : Account) (o : Option Account)
    → Covers a
    → Moves r j (some a) o
    → (b : Account) × (o ≡ some b) × Covers b
Moves-Covers r j a o s (inl same) = (a, same, s)
Moves-Covers r j a o s (inr (its, up, may, e)) =
    (change (asked r up) a, e, change-Covers (asked r up) a may s)
