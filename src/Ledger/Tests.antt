-- ===== src/Ledger/Tests.antt =====
-- Runs of the ledger, and the theorems at concrete inputs.
use Prim.Native.String.{count}
use moneybee_backend.Base.{
  ℕ, ◌≡◌, ◌≢◌, ◌+◌, refl, arith, String, true, false, none, some, List, [], ◌∷◌, subst,
}
use moneybee_backend.Base.Action.{ok, err}
use moneybee_backend.Principal.{Principal}
use moneybee_backend.Ledger.Records.{
  LedgerAccount, AccountingPeriod, opened, JournalEntry, JournalPosting, JournalEntryCreate,
  AccountingPeriodCreate, LedgerDb, Host, debit, credit, unbalanced_journal,
  accounting_period_closed, idempotency_conflict,
}
use moneybee_backend.Ledger.Access.{
  has_permission, require_finance_permission, active_organization, validate_idempotency_key,
}
use moneybee_backend.Ledger.Journal.{
  same_text, period_for_date, entry_for_key, postings_of, existing_journal, check_accounts,
  add_journal, commit_journal, post_in_period, post_new, post_journal, new_entry, new_postings,
}
use moneybee_backend.Ledger.Journal.Outcomes.{Posts, post_journal-Posts, post_journal_again}
use moneybee_backend.Ledger.Setup.{
  create_accounting_period, save_period, closed_period, close_period_in, close_accounting_period,
}
use moneybee_backend.Ledger.Setup.Calendar.{IsCalendar, create_accounting_period-IsCalendar}
use moneybee_backend.Ledger.Setup.Closing.{Shuts, close_accounting_period-Shuts}
use moneybee_backend.Ledger.Setup.Shut.{post_journal_after_close}
use moneybee_backend.Ledger.Sound.{IsSound, IsFresh}
use moneybee_backend.Ledger.Balance.{accounts_in, trial_balance}
use moneybee_backend.Ledger.Sound.Post.{post_journal-IsSound}
use moneybee_backend.Ledger.Sound.Report.{Balances, trial_balance-Balances}

-- A host whose texts need no stripping; the hash of a command is its description.
abbrev host : Host
host = record {
  strip = λ s. s;
  upper = λ s. s;
  len = count;
  request_hash = λ payload. payload.description;
  now = 500;
}

abbrev accountant : Principal
accountant = record {
  user_id = 2;
  issuer = "moneybee";
  subject = "accountant";
  organization_ids = 40 ∷ [];
  active_organization_id = some 40;
  roles = [];
  permissions = "finance.post" ∷ "finance.read" ∷ "finance.manage" ∷ [];
  membership_types = [];
  borrower_id = none;
  lender_id = none;
  is_active = true;
}

abbrev account : ℕ → ℕ → String → LedgerAccount
account id o code = record {
  id = id;
  organization_id = o;
  code = code;
  name = code;
  account_type = "ASSET";
  currency = "USD";
  active = true;
}

abbrev january : ℕ → ℕ → AccountingPeriod
january id o = record {
  id = id;
  organization_id = o;
  name = "January";
  starts_at = 0;
  ends_at = 1000;
  status = opened;
  closed_at = none;
  closed_by = none;
}

abbrev books : LedgerDb
books = record {
  accounts =
      account 1 40 "CASH" ∷ account 2 40 "FEES" ∷ account 3 41 "CASH" ∷ account 4 41 "FEES" ∷ [];
  periods = january 9 40 ∷ january 10 41 ∷ [];
  entries = [];
  postings = [];
  audit = [];
  outbox = [];
}

abbrev command : String → ℕ → ℕ → JournalEntryCreate
command description first credited = record {
  source_type = "MANUAL";
  source_id = none;
  description = description;
  currency = "USD";
  effective_at = 300;
  postings =
      record { account_id = first; side = debit; amount = 100; memo = none }
      ∷ record { account_id = 1 + first; side = credit; amount = credited; memo = none }
      ∷ [];
}

abbrev fee_entry : JournalEntry
fee_entry = new_entry host accountant (command "fee" 1 100) "key-0001" 40 9 77

abbrev fee_postings : List JournalPosting
fee_postings = new_postings 77 "USD" (command "fee" 1 100).postings

abbrev fee_books : LedgerDb
fee_books = add_journal fee_entry fee_postings books

fee_run :
    post_journal host accountant (command "fee" 1 100) "key-0001" 77 none books
    ≡ (ok (fee_entry, fee_postings, false), fee_books)
unfolding has_permission require_finance_permission active_organization validate_idempotency_key
    same_text period_for_date entry_for_key existing_journal check_accounts commit_journal
    post_in_period post_new post_journal
fee_run = refl

odd_run :
    post_journal host accountant (command "fee" 1 90) "key-0001" 77 none books
    ≡ (err unbalanced_journal, books)
unfolding has_permission require_finance_permission active_organization validate_idempotency_key
    same_text entry_for_key existing_journal post_new post_journal
odd_run = refl

books-IsSound : IsSound books
books-IsSound = record { one_account = λ k. ground arith; balanced = tt; served = tt }

books-IsFresh : IsFresh 77 books
unfolding postings_of
books-IsFresh = record { no_account = refl; no_posting = refl; no_entry = tt }

fee_books-IsSound : IsSound fee_books
unfolding postings_of accounts_in same_text
fee_books-IsSound = record {
  one_account = λ k. ground arith;
  balanced = (refl, tt);
  served = ((refl, (refl, tt)), tt);
}

books-IsCalendar : IsCalendar books
books-IsCalendar = record { one_period = λ k. ground arith; one_covers = λ o t. ground arith }

abbrev shut_books : LedgerDb
shut_books = save_period accountant (closed_period host accountant (january 9 40)) books

close_run :
    close_accounting_period host accountant 9 books
    ≡ (ok (closed_period host accountant (january 9 40)), shut_books)
unfolding has_permission require_finance_permission active_organization close_period_in
    close_accounting_period
close_run = refl

-- another organization posts in the period that the first one closed
abbrev other : Principal
other = record accountant { organization_ids = 41 ∷ []; active_organization_id = some 41 }

abbrev other_entry : JournalEntry
other_entry = new_entry host other (command "fee" 3 100) "key-0001" 41 10 78

abbrev other_postings : List JournalPosting
other_postings = new_postings 78 "USD" (command "fee" 3 100).postings

other_run :
    post_journal host other (command "fee" 3 100) "key-0001" 78 none shut_books
    ≡ (ok (other_entry, other_postings, false), add_journal other_entry other_postings shut_books)
unfolding has_permission require_finance_permission active_organization validate_idempotency_key
    same_text period_for_date entry_for_key existing_journal check_accounts commit_journal
    post_in_period post_new post_journal
other_run = refl

closed_run :
    post_journal host accountant (command "fee" 1 100) "key-0001" 77 none shut_books
    ≡ (err accounting_period_closed, shut_books)
unfolding has_permission require_finance_permission active_organization validate_idempotency_key
    same_text period_for_date entry_for_key existing_journal check_accounts commit_journal
    post_in_period post_new post_journal
closed_run = refl

post_journal-Posts_example :
    Posts
      (command "fee" 1 100)
      books
      (post_journal host accountant (command "fee" 1 100) "key-0001" 77 none books)
post_journal-Posts_example =
    post_journal-Posts host accountant (command "fee" 1 100) "key-0001" 77 books

post_journal_again_example :
    post_journal host accountant (command "rent" 1 900) "key-0001" 78 none fee_books
    ≡ (err idempotency_conflict, fee_books)
unfolding same_text
post_journal_again_example =
    post_journal_again host accountant (command "fee" 1 100) (command "rent" 1 900) "key-0001" 77 78
      none books fee_books fee_entry fee_postings fee_run

post_journal-IsSound_example :
    IsSound
      (post_journal host accountant (command "fee" 1 100) "key-0001" 77 (some fee_books) books).1
post_journal-IsSound_example =
    post_journal-IsSound host accountant (command "fee" 1 100) "key-0001" 77 (some fee_books) books
      books-IsSound books-IsFresh (λ db' e. subst IsSound (cc e) fee_books-IsSound)

trial_balance-Balances_example :
    Balances fee_books (trial_balance host accountant none none fee_books)
trial_balance-Balances_example =
    trial_balance-Balances host accountant none none fee_books fee_books-IsSound

abbrev february : AccountingPeriodCreate
february = record { name = "February"; starts_at = 1000; ends_at = 2000 }

create_accounting_period-IsCalendar_example :
    IsCalendar (create_accounting_period host accountant february 11 none books).1
create_accounting_period-IsCalendar_example =
    create_accounting_period-IsCalendar host accountant february 11 none books books-IsCalendar refl
      (λ db' e. cc e)

close_accounting_period-Shuts_example :
    Shuts host accountant 9 books (close_accounting_period host accountant 9 books)
close_accounting_period-Shuts_example =
    close_accounting_period-Shuts host accountant 9 books books-IsCalendar

post_journal_after_close_example :
    other_entry.organization_id ≢ (closed_period host accountant (january 9 40)).organization_id
post_journal_after_close_example =
    post_journal_after_close host host accountant other 9 78 books shut_books
      (add_journal other_entry other_postings shut_books)
      (closed_period host accountant (january 9 40)) (command "fee" 3 100) "key-0001" other_entry
      other_postings books-IsCalendar close_run (omega arith) (omega arith) other_run
