-- ===== src/Commissions/Totals.antt =====
-- The sums over the adjustments and the splits of a commission.
use moneybee_backend.Base.{
  ℕ, ◌+◌, ◌≡◌, refl, arith, List, [], ◌∷◌, ◌++◌, map, ◌==◌, Bool-cases, inl, inr, if◌then◌else◌,
  sym, ap, ◌∙◌,
}
use moneybee_backend.Base.Int.{pos, ◌+ℤ◌, +ℤ_assoc, +ℤ_comm}
use moneybee_backend.Commissions.Rows.{
  CommissionAdjustment, CommissionSplit, PaymentInput, adjustments_total, split_total,
}
use moneybee_backend.Commissions.Shares.{pay_row}

pub adjustments_total-add :
    (k : ℕ) (a : CommissionAdjustment) (rows : List CommissionAdjustment)
    → adjustments_total k (rows ++ a ∷ []) ≡ (
        if a.commission_id == k
        then adjustments_total k rows +ℤ a.amount
        else adjustments_total k rows)
unfolding adjustments_total
adjustments_total-add k a [] = elim (Bool-cases (a.commission_id == k)) [
  | inl same ↦ rw same (+ℤ_comm a.amount (pos 0))
  | inr other ↦ rw other refl
]
adjustments_total-add k a (r ∷ rows) =
    let rest = adjustments_total-add k a rows in
    elim (Bool-cases (r.commission_id == k)) [
      | inr skip ↦ rw skip rest
      | inl counted ↦ elim (Bool-cases (a.commission_id == k)) [
        | inl same ↦
            rw (counted, same)
              (ap (λ t. r.amount +ℤ t) (rw same at rest)
                ∙ sym (+ℤ_assoc r.amount (adjustments_total k rows) a.amount))
        | inr other ↦ rw (counted, other) (ap (λ t. r.amount +ℤ t) (rw other at rest))
      ]
    ]

pub split_total-add :
    (k : ℕ) (s : CommissionSplit) (rows : List CommissionSplit)
    → split_total k (rows ++ s ∷ [])
      ≡ (if s.commission_id == k then split_total k rows + s.amount else split_total k rows)
unfolding split_total
split_total-add k s [] = ground arith
split_total-add k s (r ∷ rows) = ground (arith, split_total-add k s rows)

pub split_total-pay :
    (k id : ℕ) (payload : PaymentInput) (rows : List CommissionSplit)
    → split_total k (map (pay_row id payload) rows) ≡ split_total k rows
unfolding split_total
split_total-pay k id payload [] = refl
split_total-pay k id payload (r ∷ rows) =
    let rest = split_total-pay k id payload rows in
    elim (Bool-cases (r.id == id)) [
      | inl here ↦ rw (here, rest) refl
      | inr other ↦ rw (other, rest) refl
    ]
