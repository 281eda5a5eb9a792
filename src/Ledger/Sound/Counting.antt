-- ===== src/Ledger/Sound/Counting.antt =====
-- Counting the accounts that a query for ids finds.
use moneybee_backend.Base.{
  ℕ, ◌+◌, ◌≤◌, ◌≡◌, refl, arith, Bool, true, List, [], ◌∷◌, ◌==◌, contains, contains_cong, filter,
  length, All, Bool-cases, ==_iff, subst, inl, inr, if◌then◌else◌, ◌∙◌, sym,
}
use moneybee_backend.Ledger.Records.{LedgerAccount, PostingInput}
use moneybee_backend.Ledger.Journal.{account_ids}
use moneybee_backend.Ledger.Balance.{ids_of}
use moneybee_backend.Ledger.Sound.{accounts_with}

abbrev times : ℕ → List ℕ → ℕ
times j [] = 0
times j (k ∷ ks) = (if k == j then 1 else 0) + times j ks

-- The set of the account ids has each id once.
times-account_ids :
    (j : ℕ) (ps : List PostingInput)
    → times j (account_ids ps) ≡ (if contains j (account_ids ps) then 1 else 0)
times-account_ids j [] = refl
times-account_ids j (p ∷ ps) = elim (Bool-cases (contains p.account_id (account_ids ps))) [
  | inl known ↦ rw known (times-account_ids j ps)
  | inr new ↦
      rw new (ground (arith, times-account_ids j ps, contains_cong p.account_id j (account_ids ps)))
]

abbrev sum_over : (ℕ → ℕ) → List ℕ → ℕ
sum_over f [] = 0
sum_over f (k ∷ ks) = f k + sum_over f ks

sum_over-zero : (ks : List ℕ) → sum_over (λ k. 0) ks ≡ 0
sum_over-zero [] = refl
sum_over-zero (k ∷ ks) = omega (arith, sum_over-zero ks)

sum_over-accounts_with :
    (ks : List ℕ) (a : LedgerAccount) (rows : List LedgerAccount)
    → sum_over (λ k. accounts_with k (a ∷ rows)) ks
      ≡ times a.id ks + sum_over (λ k. accounts_with k rows) ks
sum_over-accounts_with [] a rows = refl
sum_over-accounts_with (k ∷ ks) a rows = ground (arith, sum_over-accounts_with ks a rows)

length-found :
    (ps : List PostingInput) (rows : List LedgerAccount)
    → length (filter (λ (a : LedgerAccount). contains a.id (account_ids ps)) rows)
      ≡ sum_over (λ k. accounts_with k rows) (account_ids ps)
length-found ps [] = omega (arith, sum_over-zero (account_ids ps))
length-found ps (a ∷ rows) = ground (
  arith,
  length-found ps rows,
  sum_over-accounts_with (account_ids ps) a rows,
  times-account_ids a.id ps,
)

sum_over-le : (f : ℕ → ℕ) (ks : List ℕ) → ((k : ℕ) → f k ≤ 1) → sum_over f ks ≤ length ks
sum_over-le f [] h = omega arith
sum_over-le f (k ∷ ks) h = omega (arith, h k, sum_over-le f ks h)

all_ones :
    (f : ℕ → ℕ) (ks : List ℕ) (j : ℕ)
    → ((k : ℕ) → f k ≤ 1)
    → sum_over f ks ≡ length ks
    → contains j ks ≡ true
    → 1 ≤ f j
all_ones f [] j h e m = cc
all_ones f (k ∷ ks) j h e m = elim (Bool-cases (k == j)) [
  | inl here ↦ subst (λ x. 1 ≤ f x) ((==_iff k j).0 here) (omega (arith, sum_over-le f ks h))
  | inr later ↦ all_ones f ks j h (omega (arith, h k, sum_over-le f ks h)) (ground arith)
]

accounts_with-filter :
    (k : ℕ) (ids : List ℕ) (rows : List LedgerAccount)
    → contains k ids ≡ true
    → accounts_with k (filter (λ (a : LedgerAccount). contains a.id ids) rows)
      ≡ accounts_with k rows
accounts_with-filter k ids [] h = refl
accounts_with-filter k ids (a ∷ rows) h =
    ground (arith, accounts_with-filter k ids rows h, contains_cong a.id k ids)

-- If the query finds as many accounts as there are ids, it finds one for each id.
pub found_each :
    (ps : List PostingInput) (rows : List LedgerAccount) (k : ℕ)
    → ((j : ℕ) → accounts_with j rows ≤ 1)
    → length (filter (λ (a : LedgerAccount). contains a.id (account_ids ps)) rows)
      ≡ length (account_ids ps)
    → contains k (account_ids ps) ≡ true
    → 1 ≤ accounts_with k (filter (λ (a : LedgerAccount). contains a.id (account_ids ps)) rows)
found_each ps rows k one e m =
    rw (accounts_with-filter k (account_ids ps) rows m) (
      all_ones (λ j. accounts_with j rows) (account_ids ps) k one (sym (length-found ps rows) ∙ e)
        m)

-- Rows of one query that all pass another are counted by it.
pub accounts_with-filter_mono :
    (k : ℕ) (p q : LedgerAccount → Bool) (rows : List LedgerAccount)
    → All (λ a. q a ≡ true) (filter p rows)
    → accounts_with k (filter p rows) ≤ accounts_with k (filter q rows)
accounts_with-filter_mono k p q [] h = omega arith
accounts_with-filter_mono k p q (a ∷ rows) h = elim (Bool-cases (p a)) [
  | inl in_p ↦
      let (passes, rest) : (q a ≡ true) × All (λ x. q x ≡ true) (filter p rows) = rw in_p at h in
      rw (in_p, passes) (omega (arith, accounts_with-filter_mono k p q rows rest))
  | inr out ↦
      let rest : All (λ x. q x ≡ true) (filter p rows) = rw out at h in
      rw out (ground (arith, accounts_with-filter_mono k p q rows rest))
]

pub contains-ids_of :
    (k : ℕ) (rows : List LedgerAccount) → 1 ≤ accounts_with k rows → contains k (ids_of rows) ≡ true
contains-ids_of k [] h = absurd (omega arith)
contains-ids_of k (a ∷ rows) h = ground (arith, contains-ids_of k rows)

-- every posting's account is among the ids that are asked for
abbrev pub Asked : List ℕ → List PostingInput → Type 0
Asked ids ps = All (λ (p : PostingInput). contains p.account_id ids ≡ true) ps

Asked-cons : (k : ℕ) (ids : List ℕ) (ps : List PostingInput) → Asked ids ps → Asked (k ∷ ids) ps
Asked-cons k ids [] h = tt
Asked-cons k ids (p ∷ ps) h = (ground (arith, h.0), Asked-cons k ids ps h.1)

pub Asked-for : (ps : List PostingInput) → Asked (account_ids ps) ps
Asked-for [] = tt
Asked-for (p ∷ ps) = elim (Bool-cases (contains p.account_id (account_ids ps))) [
  | inl known ↦
      let same : account_ids (p ∷ ps) ≡ account_ids ps = rw known in
      subst (λ ids. Asked ids (p ∷ ps)) (sym same) (known, Asked-for ps)
  | inr new ↦
      let more : account_ids (p ∷ ps) ≡ p.account_id ∷ account_ids ps = rw new in
      subst (λ ids. Asked ids (p ∷ ps)) (sym more)
        (ground arith, Asked-cons p.account_id (account_ids ps) ps (Asked-for ps))
]
