-- ===== src/Ledger/Balance.antt =====
-- `trial_balance` of app/financial_service.py.
use moneybee_backend.Base.{
  ℕ, ◌+◌, String, Bool, true, false, ◌&&◌, Option, none, some, List, [], ◌∷◌, ◌++◌, map, contains,
  filter, mem?, leb, ◌==◌, if◌then◌else◌,
}
use moneybee_backend.Base.Text.{String-discrete}
use moneybee_backend.Base.Action.{pure, raise, ◌>>=◌, ◌>>◌, gets}
use moneybee_backend.Principal.{Principal}
use moneybee_backend.Ledger.Records.{
  LedgerAccount, JournalEntry, EntryStatus, posted, void, JournalPosting, LedgerDb, LedgerAction,
  Host, currency_required,
}
use moneybee_backend.Ledger.Access.{require_finance_permission, active_organization}
use moneybee_backend.Ledger.Journal.{same_text, on_debit, on_credit}

-- A line: the account with its debits and its credits. The source also stores their difference.
pub record TrialBalanceLine : Type 0 where
  pub account_id : ℕ
  pub code : String
  pub name : String
  pub account_type : String
  pub debit_total : ℕ
  pub credit_total : ℕ

pub record TrialBalanceRead : Type 0 where
  pub organization_id : ℕ
  pub currency : String
  pub as_of : ℕ
  pub debit_total : ℕ
  pub credit_total : ℕ
  pub balanced : Bool
  pub accounts : List TrialBalanceLine

abbrev pub is_posted : EntryStatus → Bool
is_posted posted = true
is_posted void = false

-- `{account.currency for account in all_accounts}`
abbrev pub currencies : List LedgerAccount → List String
currencies [] = []
currencies (a ∷ rest) =
    let others = currencies rest in
    if mem? String-discrete a.currency others then others else a.currency ∷ others

-- The currency that is asked for, or the only one; the set has at most one element where its order
-- would matter.
abbrev pub choose_currency : Option String → List String → LedgerAction String
choose_currency (some currency) available = pure currency
choose_currency none [] = pure "USD"
choose_currency none (c ∷ []) = pure c
choose_currency none (c ∷ d ∷ rest) = raise currency_required

-- `totals`, in the order of the accounts
abbrev pub start_totals : List LedgerAccount → List TrialBalanceLine
start_totals [] = []
start_totals (a ∷ rest) =
    record {
      account_id = a.id;
      code = a.code;
      name = a.name;
      account_type = a.account_type;
      debit_total = 0;
      credit_total = 0;
    }
    ∷ start_totals rest

-- one round of the loop over the rows: the posting's amount goes to its account's line
abbrev pub add_posting : JournalPosting → List TrialBalanceLine → List TrialBalanceLine
add_posting p [] = []
add_posting p (line ∷ rest) =
    if line.account_id == p.account_id
    then record line {
      debit_total = line.debit_total + on_debit p.side p.amount;
      credit_total = line.credit_total + on_credit p.side p.amount;
    }
      ∷ rest
    else line ∷ add_posting p rest

unfoldable pub add_postings : List JournalPosting → List TrialBalanceLine → List TrialBalanceLine
add_postings [] totals = totals
add_postings (p ∷ ps) totals = add_postings ps (add_posting p totals)

-- the postings of an entry that are joined to it, if the entry passes the query
abbrev pub is_listed : ℕ → String → ℕ → JournalEntry → Bool
is_listed organization_id currency as_of e =
    e.organization_id == organization_id
    && same_text e.currency currency
    && is_posted e.status
    && leb e.effective_at as_of

abbrev pub joined : List ℕ → JournalPosting → JournalEntry → Bool
joined ids p e = p.journal_entry_id == e.id && contains p.account_id ids

unfoldable pub rows_of_entry : List ℕ → JournalEntry → List JournalPosting → List JournalPosting
rows_of_entry ids e ps = filter (λ p. joined ids p e) ps

-- The join, entry by entry: SQL fixes no order, and the sums do not depend on it.
unfoldable pub rows :
    List ℕ → (JournalEntry → Bool) → List JournalEntry → List JournalPosting → List JournalPosting
rows ids listed [] ps = []
rows ids listed (e ∷ es) ps =
    if listed e then rows_of_entry ids e ps ++ rows ids listed es ps else rows ids listed es ps

abbrev pub sum_debits : List TrialBalanceLine → ℕ
sum_debits [] = 0
sum_debits (line ∷ rest) = line.debit_total + sum_debits rest

abbrev pub sum_credits : List TrialBalanceLine → ℕ
sum_credits [] = 0
sum_credits (line ∷ rest) = line.credit_total + sum_credits rest

unfoldable pub accounts_in : ℕ → String → LedgerDb → List LedgerAccount
accounts_in organization_id currency db =
    filter
      (λ (a : LedgerAccount). a.organization_id == organization_id && same_text a.currency currency)
      db.accounts

abbrev pub ids_of : List LedgerAccount → List ℕ
ids_of = map (λ a. a.id)

unfoldable pub totals_of : ℕ → String → ℕ → LedgerDb → List TrialBalanceLine
totals_of organization_id currency as_of db =
    let accounts = accounts_in organization_id currency db in
    add_postings
      (rows (ids_of accounts) (is_listed organization_id currency as_of) db.entries db.postings)
      (start_totals accounts)

unfoldable pub read_balance : ℕ → String → ℕ → LedgerDb → TrialBalanceRead
read_balance organization_id currency as_of db = record {
  organization_id = organization_id;
  currency = currency;
  as_of = as_of;
  debit_total = sum_debits (totals_of organization_id currency as_of db);
  credit_total = sum_credits (totals_of organization_id currency as_of db);
  balanced =
      sum_debits (totals_of organization_id currency as_of db)
      == sum_credits (totals_of organization_id currency as_of db);
  accounts = totals_of organization_id currency as_of db;
}

abbrev as_of_or_now : Host → Option ℕ → ℕ
as_of_or_now host none = host.now
as_of_or_now host (some as_of) = as_of

-- `{account.currency for account in all_accounts}` of the organization
abbrev pub available_in : ℕ → LedgerDb → List String
available_in organization_id db =
    currencies (filter (λ (a : LedgerAccount). a.organization_id == organization_id) db.accounts)

-- the part of `trial_balance` after the currencies are known
unfoldable pub report :
    Host → ℕ → Option ℕ → Option String → List String → LedgerAction TrialBalanceRead
report host organization_id as_of currency available = do
  chosen ← choose_currency currency available
  gets (read_balance organization_id (host.upper (host.strip chosen)) (as_of_or_now host as_of))

-- the part of `trial_balance` after the organization is known
abbrev pub report_on : Host → Option ℕ → Option String → ℕ → LedgerAction TrialBalanceRead
report_on host as_of currency organization_id = do
  available ← gets (available_in organization_id)
  report host organization_id as_of currency available

unfoldable pub trial_balance :
    Host → Principal → Option ℕ → Option String → LedgerAction TrialBalanceRead
trial_balance host principal as_of currency = do
  require_finance_permission principal "finance.read"
  organization_id ← active_organization principal
  report_on host as_of currency organization_id
