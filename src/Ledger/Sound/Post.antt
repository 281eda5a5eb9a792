-- ===== src/Ledger/Sound/Post.antt =====
-- The invariant of the ledger under `post_journal` of app/financial_service.py.
use moneybee_backend.Base.{
  ℕ, ◌≤◌, ◌≡◌, refl, arith, String, true, Option, none, some, List, [], ◌∷◌, ◌==◌, ◌&&◌, contains,
  All, inl, inr, ap, sym, subst,
}
use moneybee_backend.Base.Action.{>>=-of_ok, >>=-of_err}
use moneybee_backend.Principal.{Principal}
use moneybee_backend.Ledger.Records.{
  LedgerAccount, AccountingPeriod, JournalEntry, JournalPosting, PostingInput, JournalEntryCreate,
  LedgerDb, Host,
}
use moneybee_backend.Ledger.Journal.{
  same_text, account_ids, new_entry, new_postings, existing_journal, replay_or_raise,
  commit_journal, post_journal,
}
use moneybee_backend.Ledger.Journal.Cases.{Accepted, post_new-cases}
use moneybee_backend.Ledger.Journal.Entry.{post_journal-cases, existing_journal-cases}
use moneybee_backend.Ledger.Balance.{accounts_in, ids_of}
use moneybee_backend.Ledger.Sound.{IsSound, IsFresh, accounts_with}
use moneybee_backend.Ledger.Sound.Counting.{
  found_each, accounts_with-filter_mono, contains-ids_of, Asked-for, Asked,
}
use moneybee_backend.Ledger.Sound.Posting.{after, add_journal-IsSound, check_accounts-All}

covers_each :
    (o : ℕ) (currency : String) (ids : List ℕ) (rows : List LedgerAccount) (ps : List PostingInput)
    → ((k : ℕ) → contains k ids ≡ true → 1 ≤ accounts_with k rows)
    → Asked ids ps
    → All (λ (item : PostingInput). contains item.account_id (ids_of rows) ≡ true) ps
covers_each o currency ids rows [] h asked = tt
covers_each o currency ids rows (p ∷ ps) h asked = (
  contains-ids_of p.account_id rows (h p.account_id asked.0),
  covers_each o currency ids rows ps h asked.1,
)

-- The checks of an accepted command find every account in the organization and the currency.
accepted_covers :
    (db : LedgerDb) (o : ℕ) (payload : JournalEntryCreate) (period : AccountingPeriod)
    → IsSound db
    → Accepted db o payload period
    → All
        (λ (item : PostingInput).
          contains item.account_id (ids_of (accounts_in o payload.currency db)) ≡ true)
        payload.postings
unfolding accounts_in
accepted_covers db o payload period sound accepted =
    covers_each o payload.currency (account_ids payload.postings)
      (accounts_in o payload.currency db) payload.postings
      (λ k asked.
        let here =
          found_each payload.postings db.accounts k sound.one_account accepted.found asked in
        let more =
          accounts_with-filter_mono k
            (λ (a : LedgerAccount). contains a.id (account_ids payload.postings))
            (λ (a : LedgerAccount). a.organization_id == o && same_text a.currency payload.currency)
            db.accounts
            (check_accounts-All o payload.currency _ db (ap (λ r. r.0) accepted.checked)) in
        omega (arith, here, more))
      (Asked-for payload.postings)

-- After an `IntegrityError` the session holds what the other transaction left.
commit_journal_race :
    (db db' : LedgerDb) (e : JournalEntry) (ps : List JournalPosting)
    → (commit_journal (some db') e ps db).1 ≡ db'
unfolding commit_journal
commit_journal_race db db' e ps =
    let looked = existing_journal e.organization_id e.idempotency_key e.request_hash in
    elim (existing_journal-cases e.organization_id e.idempotency_key e.request_hash db') [
      | inl (x, raised) ↦ ap (λ r. r.1) (>>=-of_err looked replay_or_raise db' raised)
      | inr (inl (old, replays, found)) ↦ ap (λ r. r.1) (>>=-of_ok looked replay_or_raise db' found)
      | inr (inr (missing, nothing)) ↦ ap (λ r. r.1) (>>=-of_ok looked replay_or_raise db' nothing)
    ]

commit_journal-IsSound :
    (db : LedgerDb) (e : JournalEntry) (items : List PostingInput) (race : Option LedgerDb)
    → IsSound (after db e items)
    → ((db' : LedgerDb) → race ≡ some db' → IsSound db')
    → IsSound (commit_journal race e (new_postings e.id e.currency items) db).1
unfolding commit_journal after
commit_journal-IsSound db e items none sound raced = sound
commit_journal-IsSound db e items (some db') sound raced =
    subst IsSound (sym (commit_journal_race db db' e (new_postings e.id e.currency items)))
      (raced db' refl)

-- If the ledger is sound (account ids are unique, and the postings of every entry are even and
-- to accounts of its organization and currency), the new entry's id is fresh, and a transaction
-- that came first also left a sound ledger, then the ledger is sound after post_journal, however
-- the call ends.
pub post_journal-IsSound :
    (host : Host) (principal : Principal) (payload : JournalEntryCreate) (raw_key : String)
    (entry_id : ℕ) (race : Option LedgerDb) (db : LedgerDb)
    → IsSound db
    → IsFresh entry_id db
    → ((db' : LedgerDb) → race ≡ some db' → IsSound db')
    → IsSound (post_journal host principal payload raw_key entry_id race db).1
post_journal-IsSound host principal payload raw_key entry_id race db sound fresh raced =
    elim (post_journal-cases host principal payload raw_key entry_id race db) [
      | inl (x, raised) ↦ rw raised sound
      | inr (o, key, admitted, inl (e, replays, replayed)) ↦ rw replayed sound
      | inr (o, key, admitted, inr (unused, goes)) ↦
          elim (post_new-cases host principal payload key o entry_id race db) [
            | inl (x, raised) ↦ rw (goes, raised) sound
            | inr (period, accepted, commits) ↦
                let e = new_entry host principal payload key o period.id entry_id in
                rw (goes, commits)
                  (commit_journal-IsSound db e payload.postings race
                    (add_journal-IsSound db e payload.postings sound fresh accepted.even
                      (accepted_covers db o payload period sound accepted))
                    raced)
          ]
    ]
