-- ===== src/Matching/Scores.antt =====
-- When a program is eligible, and the score that goes with it: `score` of app/services.py.
use moneybee_backend.Base.{
  ℕ, ◌≤◌, ◌≡◌, refl, arith, Bool, true, false, List, [], ltb, Bool-cases, inl, inr,
}
use moneybee_backend.Lifecycle.Db.{Application}
use moneybee_backend.Matching.{
  LenderProgram, Reason, state_missing, industry_out, score_reasons, score,
}

-- the application is within every limit of the program
abbrev pub Qualifies : Application → LenderProgram → Type 0
Qualifies a p =
    (p.min_amount ≤ a.requested_amount)
    × (a.requested_amount ≤ p.max_amount)
    × (p.minimum_monthly_revenue ≤ a.monthly_revenue)
    × (p.minimum_time_in_business_months ≤ a.time_in_business_months)
    × (state_missing a p ≡ false)
    × (industry_out a p ≡ false)

abbrev pub Rates : Application → LenderProgram → Bool × ℕ × List Reason → Type 0
Rates a p (true, value, reasons) = Qualifies a p × (value ≡ 100) × (reasons ≡ [])
Rates a p (false, value, reasons) = ¬ Qualifies a p × (value ≤ 80)

-- The eligible programs are those whose limits the application is within. An eligible program has
-- the score 100 and no reasons, any other at most 80.
pub score-Rates : (a : Application) (p : LenderProgram) → Rates a p (score a p)
unfolding score score_reasons
score-Rates a p = elim (Bool-cases (ltb a.requested_amount p.min_amount)) [
  | inl t ↦ rw t (λ q. ground arith, omega arith)
  | inr f1 ↦ elim (Bool-cases (ltb p.max_amount a.requested_amount)) [
    | inl t ↦ rw (f1, t) (λ q. ground arith, omega arith)
    | inr f2 ↦ elim (Bool-cases (ltb a.monthly_revenue p.minimum_monthly_revenue)) [
      | inl t ↦ rw (f1, f2, t) (λ q. ground arith, omega arith)
      | inr f3 ↦
          elim (Bool-cases (ltb a.time_in_business_months p.minimum_time_in_business_months)) [
            | inl t ↦ rw (f1, f2, f3, t) (λ q. ground arith, omega arith)
            | inr f4 ↦ elim (Bool-cases (state_missing a p)) [
              | inl t ↦ rw (f1, f2, f3, f4, t) (λ q. cc (q.4), omega arith)
              | inr f5 ↦ elim (Bool-cases (industry_out a p)) [
                | inl t ↦ rw (f1, f2, f3, f4, f5, t) (λ q. cc (q.5), omega arith)
                | inr f6 ↦
                    rw (f1, f2, f3, f4, f5, f6)
                      ((ground arith, ground arith, ground arith, ground arith, f5, f6), refl, refl)
              ]
            ]
          ]
    ]
  ]
]
