-- ===== src/Ledger/Journal.antt =====
-- `post_journal`, `_existing_journal` and `period_for_date` of app/financial_service.py.
pub mod Cases
pub mod Entry
pub mod Outcomes
use moneybee_backend.Base.{
  ℕ, ◌+◌, String, Bool, true, false, not, ◌&&◌, ◌||◌, Option, none, some, List, [], ◌∷◌, ◌++◌,
  contains, filter, find, equal, length, ltb, leb, ◌==◌, if◌then◌else◌,
}
use moneybee_backend.Base.Text.{String-discrete}
use moneybee_backend.Base.Action.{pure, raise, ◌>>=◌, ◌>>◌, gets, modify, or_raise, raise_unless}
use moneybee_backend.Principal.{Principal}
use moneybee_backend.Ledger.Records.{
  LedgerAccount, AccountingPeriod, PeriodStatus, opened, closed, locked, JournalEntry, posted, Side,
  debit, credit, JournalPosting, PostingInput, JournalEntryCreate, LedgerDb, LedgerAction, Host,
  log_event, idempotency_conflict, unbalanced_journal, account_not_found, account_access_denied,
  currency_mismatch, accounting_period_required, accounting_period_closed, integrity_error,
}
use moneybee_backend.Ledger.Access.{
  require_finance_permission, active_organization, validate_idempotency_key,
}

-- an equation between texts
unfoldable pub same_text : String → String → Bool
same_text a b = equal String-discrete a b

abbrev pub on_debit : Side → ℕ → ℕ
on_debit debit amount = amount
on_debit credit amount = 0

abbrev pub on_credit : Side → ℕ → ℕ
on_credit debit amount = 0
on_credit credit amount = amount

-- the two sums over the postings of a command
abbrev pub input_debits : List PostingInput → ℕ
input_debits [] = 0
input_debits (p ∷ ps) = on_debit p.side p.amount + input_debits ps

abbrev pub input_credits : List PostingInput → ℕ
input_credits [] = 0
input_credits (p ∷ ps) = on_credit p.side p.amount + input_credits ps

-- `{posting.account_id for posting in payload.postings}`, each id once
abbrev pub account_ids : List PostingInput → List ℕ
account_ids [] = []
account_ids (p ∷ ps) =
    let rest = account_ids ps in if contains p.account_id rest then rest else p.account_id ∷ rest

unfoldable pub period_for_date : ℕ → ℕ → LedgerDb → Option AccountingPeriod
period_for_date organization_id effective_at db =
    find
      (λ p.
        p.organization_id == organization_id
        && leb p.starts_at effective_at
        && ltb effective_at p.ends_at)
      db.periods

unfoldable pub entry_for_key : ℕ → String → LedgerDb → Option JournalEntry
entry_for_key organization_id key db =
    find (λ e. e.organization_id == organization_id && same_text e.idempotency_key key) db.entries

-- The rows are in the order in which they were added.
unfoldable pub postings_of : ℕ → LedgerDb → List JournalPosting
postings_of entry_id db = filter (λ p. p.journal_entry_id == entry_id) db.postings

abbrev pub Posted : Type 0
Posted = JournalEntry × List JournalPosting × Bool

-- The outcome of `_existing_journal` on the entry that has the key.
abbrev pub check_existing : Option JournalEntry → String → LedgerAction (Option Posted)
check_existing none request_hash db = pure none db
check_existing (some existing) request_hash db =
    (if same_text existing.request_hash request_hash
        then pure (some (existing, postings_of existing.id db, true))
        else raise idempotency_conflict)
      db

unfoldable pub existing_journal : ℕ → String → String → LedgerAction (Option Posted)
existing_journal organization_id idempotency_key request_hash =
    gets (entry_for_key organization_id idempotency_key) >>= λ found.
    check_existing found request_hash

-- the loop over the accounts that were found
unfoldable pub check_accounts : ℕ → String → List LedgerAccount → LedgerAction (Unit {0})
check_accounts organization_id currency [] = pure tt
check_accounts organization_id currency (a ∷ rest) =
    if not (a.organization_id == organization_id) || not a.active
    then raise account_access_denied
    else if not (same_text a.currency currency)
    then raise currency_mismatch
    else check_accounts organization_id currency rest

abbrev pub is_open : PeriodStatus → Bool
is_open opened = true
is_open closed = false
is_open locked = false

abbrev pub new_posting : ℕ → String → PostingInput → JournalPosting
new_posting entry_id currency item = record {
  journal_entry_id = entry_id;
  account_id = item.account_id;
  side = item.side;
  amount = item.amount;
  currency = currency;
  memo = item.memo;
}

abbrev pub new_postings : ℕ → String → List PostingInput → List JournalPosting
new_postings entry_id currency [] = []
new_postings entry_id currency (item ∷ rest) =
    new_posting entry_id currency item ∷ new_postings entry_id currency rest

abbrev pub new_entry : Host → Principal → JournalEntryCreate → String → ℕ → ℕ → ℕ → JournalEntry
new_entry host principal payload key organization_id period_id entry_id = record {
  id = entry_id;
  organization_id = organization_id;
  period_id = period_id;
  idempotency_key = key;
  request_hash = host.request_hash payload;
  source_type = payload.source_type;
  source_id = payload.source_id;
  description = payload.description;
  currency = payload.currency;
  effective_at = payload.effective_at;
  status = posted;
  posted_at = host.now;
  posted_by = principal.subject;
}

abbrev pub add_journal : JournalEntry → List JournalPosting → LedgerDb → LedgerDb
add_journal entry items db =
    log_event
      (record {
        action = "FINANCE_JOURNAL_POSTED";
        resource_id = entry.id;
        organization_id = entry.organization_id;
        actor_id = entry.posted_by;
      })
      (record db { entries = db.entries ++ entry ∷ []; postings = db.postings ++ items })

abbrev pub replay_or_raise : Option Posted → LedgerAction Posted
replay_or_raise (some replay) = pure replay
replay_or_raise none = raise integrity_error

-- `commit`. With `race = some db'` another transaction was first and the commit raises
-- `IntegrityError`: `db'` is what the session sees after its rollback.
unfoldable pub commit_journal :
    Option LedgerDb → JournalEntry → List JournalPosting → LedgerAction Posted
commit_journal none entry items = modify (add_journal entry items) >> pure (entry, items, false)
commit_journal (some db') entry items =
    modify (λ db. db')
    >> existing_journal entry.organization_id entry.idempotency_key entry.request_hash
    >>= replay_or_raise

-- the query for the accounts that the postings name
abbrev pub named_accounts : JournalEntryCreate → LedgerDb → List LedgerAccount
named_accounts payload db =
    filter (λ (a : LedgerAccount). contains a.id (account_ids payload.postings)) db.accounts

-- the part of `post_journal` after the checks on the accounts
unfoldable pub post_in_period :
    Host → Principal → JournalEntryCreate → String → ℕ → ℕ → Option LedgerDb → LedgerAction Posted
post_in_period host principal payload key organization_id entry_id race = do
  found ← gets (period_for_date organization_id payload.effective_at)
  period ← or_raise found accounting_period_required
  raise_unless (is_open period.status) accounting_period_closed
  commit_journal race (new_entry host principal payload key organization_id period.id entry_id)
      (new_postings entry_id payload.currency payload.postings)

-- the part of `post_journal` after the key was not found
unfoldable pub post_new :
    Host → Principal → JournalEntryCreate → String → ℕ → ℕ → Option LedgerDb → LedgerAction Posted
post_new host principal payload key organization_id entry_id race = do
  raise_unless
      (input_debits payload.postings == input_credits payload.postings
        && ltb 0 (input_debits payload.postings))
      unbalanced_journal
  accounts ← gets (named_accounts payload)
  raise_unless (length accounts == length (account_ids payload.postings)) account_not_found
  check_accounts organization_id payload.currency accounts
  post_in_period host principal payload key organization_id entry_id race

abbrev pub replay_or_post : Option Posted → LedgerAction Posted → LedgerAction Posted
replay_or_post (some replay) post = pure replay
replay_or_post none post = post

-- `entry_id` is the `uuid.uuid4()` of the new entry.
unfoldable pub post_journal :
    Host → Principal → JournalEntryCreate → String → ℕ → Option LedgerDb → LedgerAction Posted
post_journal host principal payload idempotency_key entry_id race = do
  require_finance_permission principal "finance.post"
  organization_id ← active_organization principal
  key ← validate_idempotency_key host idempotency_key
  existing ← existing_journal organization_id key (host.request_hash payload)
  replay_or_post existing (post_new host principal payload key organization_id entry_id race)
