-- ===== src/Ledger/Sound/Posting.antt =====
-- The invariant of the ledger under a new journal.
use moneybee_backend.Base.{
  ℕ, ◌≡◌, ◌≢◌, refl, arith, String, true, ◌&&◌, List, [], ◌∷◌, ◌++◌, ◌==◌, ==_refl, ==_ne, contains,
  filter, All, All-append, All-zip, Bool-cases, inl, inr, ap, ◌∙◌, sym, append-nil,
}
use moneybee_backend.Base.Action.{ok}
use moneybee_backend.Ledger.Records.{
  LedgerAccount, JournalEntry, JournalPosting, PostingInput, LedgerDb,
}
use moneybee_backend.Ledger.Journal.{
  same_text, input_debits, input_credits, postings_of, check_accounts, new_posting, new_postings,
  add_journal,
}
use moneybee_backend.Ledger.Balance.{accounts_in, ids_of}
use moneybee_backend.Ledger.Sound.{
  posting_debits, posting_credits, IsServed, IsBalanced, IsSound, IsFresh,
}

-- The postings of an entry after a list of new ones.
of_entry : ℕ → List JournalPosting → List JournalPosting
of_entry k ps = filter (λ (p : JournalPosting). p.journal_entry_id == k) ps

of_entry-append :
    (k : ℕ) (ps qs : List JournalPosting) → of_entry k (ps ++ qs) ≡ of_entry k ps ++ of_entry k qs
unfolding of_entry
of_entry-append k [] qs = refl
of_entry-append k (p ∷ ps) qs = elim (Bool-cases (p.journal_entry_id == k)) [
  | inl here ↦ rw here (ap (λ l. p ∷ l) (of_entry-append k ps qs))
  | inr other ↦ rw other (of_entry-append k ps qs)
]

of_entry-new_postings :
    (k : ℕ) (currency : String) (items : List PostingInput)
    → of_entry k (new_postings k currency items) ≡ new_postings k currency items
unfolding of_entry
of_entry-new_postings k currency [] = refl
of_entry-new_postings k currency (item ∷ rest) =
    rw (==_refl k)
      (ap (λ l. new_posting k currency item ∷ l) (of_entry-new_postings k currency rest))

of_entry-new_postings_ne :
    (j k : ℕ) (currency : String) (items : List PostingInput)
    → j ≢ k
    → of_entry j (new_postings k currency items) ≡ []
unfolding of_entry
of_entry-new_postings_ne j k currency [] ne = refl
of_entry-new_postings_ne j k currency (item ∷ rest) ne =
    rw (==_ne k j (λ e. ne (sym e))) (of_entry-new_postings_ne j k currency rest ne)

posting_sums :
    (k : ℕ) (currency : String) (items : List PostingInput)
    → (posting_debits (new_postings k currency items) ≡ input_debits items)
      × (posting_credits (new_postings k currency items) ≡ input_credits items)
posting_sums k currency [] = (refl, refl)
posting_sums k currency (item ∷ rest) = ground (arith, posting_sums k currency rest)

-- The accounts that pass `check_accounts` are of the organization and the currency.
pub check_accounts-All :
    (organization_id : ℕ) (currency : String) (rows : List LedgerAccount) (db : LedgerDb)
    → (check_accounts organization_id currency rows db).0 ≡ ok tt
    → All
        (λ (a : LedgerAccount).
          (a.organization_id == organization_id && same_text a.currency currency) ≡ true)
        rows
unfolding check_accounts
check_accounts-All organization_id currency [] db h = tt
check_accounts-All organization_id currency (a ∷ rows) db h =
    (ground arith, check_accounts-All organization_id currency rows db (ground arith))

module _ (db : LedgerDb) (e : JournalEntry) (items : List PostingInput) where
  unfoldable pub after : LedgerDb
  after = add_journal e (new_postings e.id e.currency items) db

  postings_of-old : (k : ℕ) → k ≢ e.id → postings_of k after ≡ postings_of k db
  unfolding postings_of after of_entry
  postings_of-old k ne =
      of_entry-append k db.postings (new_postings e.id e.currency items)
      ∙ ap (λ l. of_entry k db.postings ++ l) (of_entry-new_postings_ne k e.id e.currency items ne)
      ∙ append-nil (of_entry k db.postings)

  postings_of-new :
      postings_of e.id db ≡ [] → postings_of e.id after ≡ new_postings e.id e.currency items
  unfolding postings_of after of_entry
  postings_of-new none_yet =
      of_entry-append e.id db.postings (new_postings e.id e.currency items)
      ∙ ap (λ l. l ++ of_entry e.id (new_postings e.id e.currency items)) none_yet
      ∙ of_entry-new_postings e.id e.currency items

  accounts_in-after : (o : ℕ) (c : String) → accounts_in o c after ≡ accounts_in o c db
  unfolding accounts_in after
  accounts_in-after o c = refl

  IsBalanced-old : (x : JournalEntry) → IsBalanced db x → x.id ≢ e.id → IsBalanced after x
  IsBalanced-old x h ne = rw (postings_of-old x.id ne) h

  IsServed-old : (x : JournalEntry) → IsServed db x → x.id ≢ e.id → IsServed after x
  IsServed-old x h ne =
      rw (postings_of-old x.id ne, accounts_in-after x.organization_id x.currency) h

  -- the accounts that the command names are of the entry's organization and currency
  abbrev pub Covers : Type 0
  Covers =
      All
        (λ (item : PostingInput).
          contains item.account_id (ids_of (accounts_in e.organization_id e.currency db)) ≡ true)
        items

  served_new :
      (k : ℕ) (ids : List ℕ) (rest : List PostingInput)
      → All (λ (item : PostingInput). contains item.account_id ids ≡ true) rest
      → All
          (λ (p : JournalPosting). contains p.account_id ids ≡ true)
          (new_postings k e.currency rest)
  served_new k ids [] h = tt
  served_new k ids (item ∷ rest) h = (h.0, served_new k ids rest h.1)

  pub add_journal-IsSound :
      IsSound db
      → IsFresh e.id db
      → input_debits items ≡ input_credits items
      → Covers
      → IsSound after
  unfolding after
  add_journal-IsSound sound fresh even covers = record {
    one_account = sound.one_account;
    balanced =
        All-append (IsBalanced after) db.entries (e ∷ [])
          (All-zip (IsBalanced db) (λ (x : JournalEntry). x.id ≢ e.id) (IsBalanced after) db.entries
            IsBalanced-old sound.balanced fresh.no_entry)
          (
            rw (postings_of-new fresh.no_posting) (
                (posting_sums e.id e.currency items).0
                ∙ even
                ∙ sym (posting_sums e.id e.currency items).1),
            tt,
          );
    served =
        All-append (IsServed after) db.entries (e ∷ [])
          (All-zip (IsServed db) (λ (x : JournalEntry). x.id ≢ e.id) (IsServed after) db.entries
            IsServed-old sound.served fresh.no_entry)
          (
            rw (postings_of-new fresh.no_posting, accounts_in-after e.organization_id e.currency)
                (served_new e.id (ids_of (accounts_in e.organization_id e.currency db)) items
                  covers),
            tt,
          );
  }
