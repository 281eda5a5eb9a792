-- ===== src/Commissions/Whole.antt =====
-- The account of a commission under requests whose amounts are whole cents.
use moneybee_backend.Base.{
  ℕ, ◌+◌, ◌≡◌, refl, arith, Bool, true, false, Option, some, Bool-cases, inl, inr, ltb,
  if◌then◌else◌, subst, sym, ap, ◌∙◌,
}
use moneybee_backend.Base.Int.{ℤ, pos, ◌+ℤ◌, lez, +ℤ_assoc}
use moneybee_backend.Commissions.Rows.{CommissionStatus, received, partially_received, expected}
use moneybee_backend.Commissions.Amounts.{status_after}
use moneybee_backend.Commissions.Requests.{Request, adjusts, receives, divides, pays}
use moneybee_backend.Commissions.Account.{
  Account, Change, adjusts_by, receives_more, shares_more, allows, change, asked, Moves, Covers,
  change-Covers,
}

-- how much of the net amount was received
abbrev pub status_of : ℕ → ℤ → CommissionStatus
status_of received_amount net =
    if lez net (pos received_amount)
    then received
    else if ltb 0 received_amount
    then partially_received
    else expected

-- A positive net amount covers what was received and what was divided, and the status says how much
-- of it was received.
abbrev pub Solvent : Account → Type 0
Solvent a = (lez a.net (pos 0) ≡ false) × Covers a × (a.status ≡ status_of a.received_amount a.net)

-- what the amount of a request has below a cent
abbrev pub rest_of : Request → ℕ
rest_of (adjusts k payload) = payload.amount.rest
rest_of (receives k payload) = payload.amount.rest
rest_of (divides k payload) = payload.amount.rest
rest_of (pays k split_id payload) = 0

status_received :
    (n : ℕ) (a : Account)
    → lez a.net (pos 0) ≡ false
    → a.status ≡ status_of a.received_amount a.net
    → status_after a.status (record { cents = a.received_amount + n; rest = 0 }) a.net
      ≡ status_of (a.received_amount + n) a.net
status_received n a positive status = elim (Bool-cases (ltb 0 (a.received_amount + n))) [
  | inl some_money ↦ rw some_money refl
  | inr no_money ↦
      let nothing : ltb 0 a.received_amount ≡ false = ground arith in
      let missing : lez a.net (pos a.received_amount) ≡ false = ground arith in
      let old : a.status ≡ expected = rw (nothing, missing) at status in rw (no_money, old) refl
]

adjusted-Solvent :
    (x : ℤ) (up : Bool) (a : Account)
    → allows (adjusts_by x 0 up) a ≡ true
    → Solvent a
    → Solvent (change (adjusts_by x 0 up) a)
adjusted-Solvent x up a may (positive, covers, status) =
    let above_zero : lez ((a.net +ℤ x) +ℤ pos 0) (pos 0) ≡ false = ground arith in
    let regroup = +ℤ_assoc a.net x (pos 0) in
    (
      subst (λ z. lez z (pos 0) ≡ false) regroup above_zero,
      change-Covers (adjusts_by x 0 up) a may covers,
      ap (status_of a.received_amount) regroup,
    )

received-Solvent :
    (n : ℕ) (up : Bool) (a : Account)
    → allows (receives_more n 0 up) a ≡ true
    → Solvent a
    → Solvent (change (receives_more n 0 up) a)
received-Solvent n up a may (positive, covers, status) =
    let plain : (a.received_amount + n) + 0 ≡ a.received_amount + n = omega arith in
    (
      positive,
      change-Covers (receives_more n 0 up) a may covers,
      status_received n a positive status ∙ ap (λ m. status_of m a.net) (sym plain),
    )

divided-Solvent :
    (n : ℕ) (up : Bool) (a : Account)
    → allows (shares_more n 0 up) a ≡ true
    → Solvent a
    → Solvent (change (shares_more n 0 up) a)
divided-Solvent n up a may (positive, covers, status) =
    (positive, change-Covers (shares_more n 0 up) a may covers, status)

-- a change, with a rest that is zero
zero_rest :
    (f : ℕ → Change) (rest : ℕ) (a : Account)
    → rest ≡ 0
    → (allows (f 0) a ≡ true → Solvent (change (f 0) a))
    → allows (f rest) a ≡ true
    → Solvent (change (f rest) a)
zero_rest f rest a none_left at_zero =
    subst (λ r. allows (f r) a ≡ true → Solvent (change (f r) a)) (sym none_left) at_zero

asked-Solvent :
    (r : Request) (up : Bool) (a : Account)
    → rest_of r ≡ 0
    → Solvent a
    → allows (asked r up) a ≡ true
    → Solvent (change (asked r up) a)
asked-Solvent (adjusts k payload) up a whole s =
    zero_rest (λ rest. adjusts_by payload.amount.cents rest up) payload.amount.rest a whole
      (λ may. adjusted-Solvent payload.amount.cents up a may s)
asked-Solvent (receives k payload) up a whole s =
    zero_rest (λ rest. receives_more payload.amount.cents rest up) payload.amount.rest a whole
      (λ may. received-Solvent payload.amount.cents up a may s)
asked-Solvent (divides k payload) up a whole s =
    zero_rest (λ rest. shares_more payload.amount.cents rest up) payload.amount.rest a whole
      (λ may. divided-Solvent payload.amount.cents up a may s)
asked-Solvent (pays k split_id payload) up a whole s = λ may. s

pub Moves-Solvent :
    (r : Request) (j : ℕ) (a : Account) (o : Option Account)
    → rest_of r ≡ 0
    → Solvent a
    → Moves r j (some a) o
    → (b : Account) × (o ≡ some b) × Solvent b
Moves-Solvent r j a o whole s (inl same) = (a, same, s)
Moves-Solvent r j a o whole s (inr (its, up, may, e)) =
    (change (asked r up) a, e, asked-Solvent r up a whole s may)
