-- ===== src/Ledger/Sound.antt =====
-- The invariant of the ledger.
pub mod Counting
pub mod Posting
pub mod Post
pub mod Balanced
pub mod Report
use moneybee_backend.Base.{
  ℕ, ◌+◌, ◌≤◌, ◌≡◌, ◌≢◌, true, List, [], ◌∷◌, ◌==◌, contains, All, if◌then◌else◌,
}
use moneybee_backend.Ledger.Records.{LedgerAccount, JournalEntry, JournalPosting, LedgerDb}
use moneybee_backend.Ledger.Journal.{on_debit, on_credit, postings_of}
use moneybee_backend.Ledger.Balance.{accounts_in, ids_of}

-- how many rows have the key
abbrev pub accounts_with : ℕ → List LedgerAccount → ℕ
accounts_with k [] = 0
accounts_with k (a ∷ rest) = (if a.id == k then 1 else 0) + accounts_with k rest

abbrev pub posting_debits : List JournalPosting → ℕ
posting_debits [] = 0
posting_debits (p ∷ ps) = on_debit p.side p.amount + posting_debits ps

abbrev pub posting_credits : List JournalPosting → ℕ
posting_credits [] = 0
posting_credits (p ∷ ps) = on_credit p.side p.amount + posting_credits ps

-- every posting is to an account of the entry's organization and currency
abbrev pub IsServed : LedgerDb → JournalEntry → Type 0
IsServed db e =
    All
      (λ (p : JournalPosting).
        contains p.account_id (ids_of (accounts_in e.organization_id e.currency db)) ≡ true)
      (postings_of e.id db)

abbrev pub IsBalanced : LedgerDb → JournalEntry → Type 0
IsBalanced db e = posting_debits (postings_of e.id db) ≡ posting_credits (postings_of e.id db)

-- The primary key of the accounts, and what every entry satisfies.
pub record IsSound (db : LedgerDb) : Type 0 where
  pub one_account : (k : ℕ) → accounts_with k db.accounts ≤ 1
  pub balanced : All (IsBalanced db) db.entries
  pub served : All (IsServed db) db.entries

-- An id that no row uses yet, as `uuid.uuid4()` gives it.
pub record IsFresh (k : ℕ) (db : LedgerDb) : Type 0 where
  pub no_account : accounts_with k db.accounts ≡ 0
  pub no_posting : postings_of k db ≡ []
  pub no_entry : All (λ (e : JournalEntry). e.id ≢ k) db.entries
