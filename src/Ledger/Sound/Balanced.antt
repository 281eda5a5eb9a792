-- ===== src/Ledger/Sound/Balanced.antt =====
-- The sums of a trial balance in a sound ledger.
use moneybee_backend.Base.{
  ℕ, ◌+◌, ◌≡◌, refl, arith, String, Bool, true, List, [], ◌∷◌, ◌++◌, ◌==◌, ==_iff, contains, filter,
  All, All-append, Bool-cases, inl, inr, ap, sym, subst, map, equal→eq,
}
use moneybee_backend.Base.Text.{String-discrete}
use moneybee_backend.Ledger.Records.{LedgerAccount, JournalEntry, JournalPosting, LedgerDb}
use moneybee_backend.Ledger.Journal.{same_text, on_debit, on_credit, postings_of}
use moneybee_backend.Ledger.Balance.{
  TrialBalanceLine, start_totals, add_posting, add_postings, is_listed, joined, rows_of_entry, rows,
  sum_debits, sum_credits, accounts_in, ids_of, totals_of, read_balance,
}
use moneybee_backend.Ledger.Sound.{posting_debits, posting_credits, IsServed, IsBalanced, IsSound}

abbrev pub line_ids : List TrialBalanceLine → List ℕ
line_ids = map (λ l. l.account_id)

line_ids-start :
    (accounts : List LedgerAccount) → line_ids (start_totals accounts) ≡ ids_of accounts
line_ids-start [] = refl
line_ids-start (a ∷ rest) = ap (λ l. a.id ∷ l) (line_ids-start rest)

start_sums :
    (accounts : List LedgerAccount)
    → (sum_debits (start_totals accounts) ≡ 0) × (sum_credits (start_totals accounts) ≡ 0)
start_sums [] = (refl, refl)
start_sums (a ∷ rest) = ground (arith, start_sums rest)

line_ids-add_posting :
    (p : JournalPosting) (t : List TrialBalanceLine) → line_ids (add_posting p t) ≡ line_ids t
line_ids-add_posting p [] = refl
line_ids-add_posting p (l ∷ t) = elim (Bool-cases (l.account_id == p.account_id)) [
  | inl here ↦ rw here refl
  | inr later ↦ rw later (ap (λ ids. l.account_id ∷ ids) (line_ids-add_posting p t))
]

-- A posting to one of the lines adds its amount to one of the two sums.
sums_add_posting :
    (p : JournalPosting) (t : List TrialBalanceLine)
    → contains p.account_id (line_ids t) ≡ true
    → (sum_debits (add_posting p t) ≡ on_debit p.side p.amount + sum_debits t)
      × (sum_credits (add_posting p t) ≡ on_credit p.side p.amount + sum_credits t)
sums_add_posting p [] h = cc
sums_add_posting p (l ∷ t) h = elim (Bool-cases (l.account_id == p.account_id)) [
  | inl here ↦ rw here (omega arith, omega arith)
  | inr later ↦
      let (d, c) = sums_add_posting p t (rw later at h) in
      rw later (omega (arith, d), omega (arith, c))
]

sums_add_postings :
    (ps : List JournalPosting) (t : List TrialBalanceLine)
    → All (λ (p : JournalPosting). contains p.account_id (line_ids t) ≡ true) ps
    → (sum_debits (add_postings ps t) ≡ posting_debits ps + sum_debits t)
      × (sum_credits (add_postings ps t) ≡ posting_credits ps + sum_credits t)
unfolding add_postings
sums_add_postings [] t h = (omega arith, omega arith)
sums_add_postings (p ∷ ps) t h =
    let (d, c) = sums_add_posting p t h.0 in
    let (ds, cs) = sums_add_postings ps (add_posting p t) (
      subst (λ ids. All (λ (x : JournalPosting). contains x.account_id ids ≡ true) ps)
        (sym (line_ids-add_posting p t)) h.1) in
    (omega (arith, d, ds), omega (arith, c, cs))

sums_append :
    (ps qs : List JournalPosting)
    → (posting_debits (ps ++ qs) ≡ posting_debits ps + posting_debits qs)
      × (posting_credits (ps ++ qs) ≡ posting_credits ps + posting_credits qs)
sums_append [] qs = (omega arith, omega arith)
sums_append (p ∷ ps) qs = let (d, c) = sums_append ps qs in (omega (arith, d), omega (arith, c))

-- The join gives only postings to the asked accounts.
rows_of_entry-All :
    (ids : List ℕ) (e : JournalEntry) (ps : List JournalPosting)
    → All (λ (p : JournalPosting). contains p.account_id ids ≡ true) (rows_of_entry ids e ps)
unfolding rows_of_entry
rows_of_entry-All ids e [] = tt
rows_of_entry-All ids e (p ∷ ps) = elim (Bool-cases (joined ids p e)) [
  | inl in_join ↦ rw in_join (ground arith, rows_of_entry-All ids e ps)
  | inr out ↦ rw out (rows_of_entry-All ids e ps)
]

rows-All :
    (ids : List ℕ) (listed : JournalEntry → Bool) (es : List JournalEntry)
    (ps : List JournalPosting)
    → All (λ (p : JournalPosting). contains p.account_id ids ≡ true) (rows ids listed es ps)
unfolding rows
rows-All ids listed [] ps = tt
rows-All ids listed (e ∷ es) ps = elim (Bool-cases (listed e)) [
  | inl asked ↦ rw asked (
      All-append _ (rows_of_entry ids e ps) (rows ids listed es ps) (rows_of_entry-All ids e ps)
        (rows-All ids listed es ps))
  | inr out ↦ rw out (rows-All ids listed es ps)
]

-- An entry that is served whole is joined with all of its postings.
rows_of_entry-served :
    (ids : List ℕ) (e : JournalEntry) (ps : List JournalPosting)
    → All
        (λ (p : JournalPosting). contains p.account_id ids ≡ true)
        (filter (λ (p : JournalPosting). p.journal_entry_id == e.id) ps)
    → rows_of_entry ids e ps ≡ filter (λ (p : JournalPosting). p.journal_entry_id == e.id) ps
unfolding rows_of_entry
rows_of_entry-served ids e [] h = refl
rows_of_entry-served ids e (p ∷ ps) h = elim (Bool-cases (p.journal_entry_id == e.id)) [
  | inl here ↦
      let (c, rest) : (contains p.account_id ids ≡ true)
          × All (λ (x : JournalPosting). contains x.account_id ids ≡ true)
              (filter (λ (x : JournalPosting). x.journal_entry_id == e.id) ps) =
        rw here at h in
      rw (here, c) (ap (λ l. p ∷ l) (rows_of_entry-served ids e ps rest))
  | inr other ↦ rw other (rows_of_entry-served ids e ps (rw other at h))
]

module _ (o : ℕ) (currency : String) (as_of : ℕ) (db : LedgerDb) where
  ids : List ℕ
  ids = ids_of (accounts_in o currency db)

  same_key :
      (e : JournalEntry)
      → is_listed o currency as_of e ≡ true
      → (e.organization_id ≡ o) × (e.currency ≡ currency)
  unfolding same_text
  same_key e h = (
    (==_iff e.organization_id o).0 (ground arith),
    equal→eq String-discrete e.currency currency (ground arith),
  )

  IsServed-ids :
      (e : JournalEntry)
      → is_listed o currency as_of e ≡ true
      → IsServed db e
      → rows_of_entry ids e db.postings ≡ postings_of e.id db
  unfolding ids postings_of
  IsServed-ids e listed served =
      let (same_o, same_c) = same_key e listed in
      rows_of_entry-served ids e db.postings (rw (same_o, same_c) at served)

  rows_even :
      (es : List JournalEntry)
      → All (IsBalanced db) es
      → All (IsServed db) es
      → posting_debits (rows ids (is_listed o currency as_of) es db.postings)
        ≡ posting_credits (rows ids (is_listed o currency as_of) es db.postings)
  unfolding rows
  rows_even [] b s = refl
  rows_even (e ∷ es) b s = elim (Bool-cases (is_listed o currency as_of e)) [
    | inr out ↦ rw out (rows_even es b.1 s.1)
    | inl listed ↦
        let (d, c) =
          sums_append (postings_of e.id db)
            (rows ids (is_listed o currency as_of) es db.postings) in
        rw (listed, IsServed-ids e listed s.0) (omega (arith, d, c, b.0, rows_even es b.1 s.1))
  ]

  -- In a sound ledger the trial balance of any organization, currency and date is balanced.
  pub read_balance_balanced : IsSound db → (read_balance o currency as_of db).balanced ≡ true
  unfolding read_balance totals_of ids
  read_balance_balanced sound =
      let accounts = accounts_in o currency db in
      let t = start_totals accounts in
      let joined_rows = rows ids (is_listed o currency as_of) db.entries db.postings in
      let (d, c) = sums_add_postings joined_rows t (
        subst
          (λ (l : List ℕ). All (λ (p : JournalPosting). contains p.account_id l ≡ true) joined_rows)
          (sym (line_ids-start accounts))
          (rows-All ids (is_listed o currency as_of) db.entries db.postings)) in
      let even = rows_even db.entries sound.balanced sound.served in
      let (d0, c0) = start_sums accounts in (==_iff _ _).1 (omega (arith, d, c, d0, c0, even))
