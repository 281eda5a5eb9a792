-- ===== src/Ledger/Setup/Periods.antt =====
-- Lists of accounting periods: how many cover a moment, and closing one of them.
use moneybee_backend.Base.{
  ℕ, ◌+◌, ◌≤◌, ◌<◌, ◌≡◌, refl, arith, Bool, true, ◌&&◌, none, some, List, [], ◌∷◌, ◌++◌, ◌==◌,
  ==_refl, leb, ltb, find, put, Bool-cases, inl, inr, if◌then◌else◌, ap, sym, subst,
}
use moneybee_backend.Principal.{Principal}
use moneybee_backend.Ledger.Records.{AccountingPeriod, Host}
use moneybee_backend.Ledger.Setup.{overlaps, closed_period, is_period}

-- the query of `period_for_date`
abbrev pub covers : ℕ → ℕ → AccountingPeriod → Bool
covers o t p = p.organization_id == o && leb p.starts_at t && ltb t p.ends_at

abbrev pub periods_at : ℕ → ℕ → List AccountingPeriod → ℕ
periods_at o t [] = 0
periods_at o t (p ∷ ps) = (if covers o t p then 1 else 0) + periods_at o t ps

abbrev pub periods_with : ℕ → List AccountingPeriod → ℕ
periods_with k [] = 0
periods_with k (p ∷ ps) = (if p.id == k then 1 else 0) + periods_with k ps

pub periods_at-add :
    (o t : ℕ) (ps : List AccountingPeriod) (p : AccountingPeriod)
    → periods_at o t (ps ++ p ∷ []) ≡ periods_at o t ps + (if covers o t p then 1 else 0)
periods_at-add o t [] p = omega arith
periods_at-add o t (q ∷ ps) p = omega (arith, periods_at-add o t ps p)

pub periods_with-add :
    (k : ℕ) (ps : List AccountingPeriod) (p : AccountingPeriod)
    → periods_with k (ps ++ p ∷ []) ≡ periods_with k ps + (if p.id == k then 1 else 0)
periods_with-add k [] p = omega arith
periods_with-add k (q ∷ ps) p = omega (arith, periods_with-add k ps p)

-- If no period of the organization overlaps a span, none covers a moment of it.
pub periods_at-free :
    (o starts_at ends_at t : ℕ) (ps : List AccountingPeriod)
    → find (overlaps o starts_at ends_at) ps ≡ none
    → starts_at ≤ t
    → t < ends_at
    → periods_at o t ps ≡ 0
periods_at-free o starts_at ends_at t [] free from to = refl
periods_at-free o starts_at ends_at t (p ∷ ps) free from to =
    elim (Bool-cases (overlaps o starts_at ends_at p)) [
      | inl hit ↦ absurd (ground arith)
      | inr miss ↦
          let rest = periods_at-free o starts_at ends_at t ps (rw miss at free) from to in
          ground arith
    ]

module _ (host : Host) (principal : Principal) where
  abbrev pub shut : AccountingPeriod → AccountingPeriod
  shut = closed_period host principal

  abbrev close_in : AccountingPeriod → List AccountingPeriod → List AccountingPeriod
  close_in p = put (λ (r : AccountingPeriod). r.id) (shut p)

  pub periods_with-close :
      (k : ℕ) (p : AccountingPeriod) (ps : List AccountingPeriod)
      → periods_with k (close_in p ps) ≡ periods_with k ps
  periods_with-close k p [] = refl
  periods_with-close k p (q ∷ ps) = ground (arith, periods_with-close k p ps)

  close_none :
      (p : AccountingPeriod) (ps : List AccountingPeriod)
      → periods_with p.id ps ≡ 0
      → close_in p ps ≡ ps
  close_none p [] h = refl
  close_none p (q ∷ ps) h = elim (Bool-cases (q.id == p.id)) [
    | inl same ↦ absurd (ground arith)
    | inr other ↦ rw other (ap (λ l. q ∷ l) (close_none p ps (ground arith)))
  ]

  -- the period that is found has the id and the organization that were asked for
  pub found_period :
      (k o : ℕ) (p : AccountingPeriod) (ps : List AccountingPeriod)
      → find (is_period k o) ps ≡ some p
      → (p.id ≡ k) × (p.organization_id ≡ o) × (1 ≤ periods_with k ps)
  found_period k o p [] h = cc
  found_period k o p (q ∷ ps) h = elim (Bool-cases (is_period k o q)) [
    | inl hit ↦
        let same : q ≡ p = cc (rw hit at h) in
        subst
          (λ (x : AccountingPeriod).
            (x.id ≡ k) × (x.organization_id ≡ o) × (1 ≤ periods_with k (q ∷ ps)))
          same (ground arith, ground arith, ground arith)
    | inr miss ↦ let (a, b, c) = found_period k o p ps (rw miss at h) in (a, b, omega (arith, c))
  ]

  covered_later :
      (t k o : ℕ) (p : AccountingPeriod) (ps : List AccountingPeriod)
      → find (is_period k o) ps ≡ some p
      → covers o t p ≡ true
      → 1 ≤ periods_at o t ps
  covered_later t k o p [] h c = cc
  covered_later t k o p (q ∷ ps) h c = elim (Bool-cases (is_period k o q)) [
    | inl hit ↦
        let same : q ≡ p = cc (rw hit at h) in
        let here = subst (λ x. covers o t x ≡ true) (sym same) c in rw here (omega arith)
    | inr miss ↦ omega (arith, covered_later t k o p ps (rw miss at h) c)
  ]

  -- Closing moves no period, so each moment is covered as often as before.
  pub periods_at-close :
      (o' t k o : ℕ) (p : AccountingPeriod) (ps : List AccountingPeriod)
      → find (is_period k o) ps ≡ some p
      → periods_with k ps ≤ 1
      → periods_at o' t (close_in p ps) ≡ periods_at o' t ps
  periods_at-close o' t k o p [] h one = refl
  periods_at-close o' t k o p (q ∷ ps) h one =
      let (same_id, same_o, some_k) = found_period k o p (q ∷ ps) h in
      elim (Bool-cases (is_period k o q)) [
        | inl hit ↦
            let same : q ≡ p = cc (rw hit at h) in
            let rest = close_none p ps (ground arith) in
            subst (λ x. periods_at o' t (close_in x (q ∷ ps)) ≡ periods_at o' t (q ∷ ps)) same
              (subst
                (λ l.
                  periods_at o' t ((if q.id == q.id then shut q else q) ∷ l)
                  ≡ periods_at o' t (q ∷ ps))
                (sym (subst (λ x. close_in x ps ≡ ps) (sym same) rest)) (ground arith))
        | inr miss ↦
            let later = rw miss at h in
            let (a, b, c) = found_period k o p ps later in
            let rest = periods_at-close o' t k o p ps later (ground arith) in ground arith
      ]

  -- If only the found period covers the moment, the query for the moment finds it closed.
  pub find-close :
      (t k o : ℕ) (p : AccountingPeriod) (ps : List AccountingPeriod)
      → find (is_period k o) ps ≡ some p
      → periods_with k ps ≤ 1
      → periods_at o t ps ≤ 1
      → covers o t p ≡ true
      → find (covers o t) (close_in p ps) ≡ some (shut p)
  find-close t k o p [] h one single c = cc
  find-close t k o p (q ∷ ps) h one single c = elim (Bool-cases (is_period k o q)) [
    | inl hit ↦
        let same : q ≡ p = cc (rw hit at h) in
        subst (λ x. find (covers o t) (close_in x (q ∷ ps)) ≡ some (shut x)) same
          (rw (==_refl q.id, subst (λ x. covers o t x ≡ true) (sym same) c) refl)
    | inr miss ↦
        let later = rw miss at h in
        let (a, b, c1) = found_period k o p ps later in
        let seen = covered_later t k o p ps later c in
        let rest = find-close t k o p ps later (ground arith) (ground arith) c in ground arith
  ]
