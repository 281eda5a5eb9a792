-- ===== src/Ledger/Setup.antt =====
-- The chart of accounts and the periods: `create_ledger_account`, `create_accounting_period` and
-- `close_accounting_period` of app/financial_service.py.
pub mod Periods
pub mod Calendar
pub mod Shut
pub mod Managers
pub mod Closing
use moneybee_backend.Base.{
  ℕ, Bool, true, false, ◌&&◌, Option, none, some, [], ◌∷◌, ◌++◌, find, ltb, ◌==◌, put,
}
use moneybee_backend.Base.Action.{pure, raise, ◌>>=◌, ◌>>◌, gets, modify, or_raise, raise_unless}
use moneybee_backend.Principal.{Principal}
use moneybee_backend.Ledger.Records.{
  LedgerAccount, AccountingPeriod, opened, closed, LedgerAccountCreate, AccountingPeriodCreate,
  LedgerDb, LedgerProblem, LedgerAction, Host, log_event, account_code_exists,
  accounting_period_overlap, accounting_period_exists, period_missing, period_not_open,
}
use moneybee_backend.Ledger.Access.{require_finance_permission, active_organization}
use moneybee_backend.Ledger.Journal.{same_text, is_open}

abbrev is_none : {A : Type 0} → Option A → Bool
is_none none = true
is_none (some _) = false

-- `commit` of rows that `add` adds; an `IntegrityError` rolls back to `db'` and raises the problem.
abbrev pub commit_or :
    {A : Type 0} → Option LedgerDb → LedgerProblem → (LedgerDb → LedgerDb) → A → LedgerAction A
commit_or none problem add result = modify add >> pure result
commit_or (some db') problem add result = modify (λ db. db') >> raise problem

abbrev pub new_account : Host → LedgerAccountCreate → ℕ → ℕ → LedgerAccount
new_account host payload organization_id account_id = record {
  id = account_id;
  organization_id = organization_id;
  code = host.upper (host.strip payload.code);
  name = host.strip payload.name;
  account_type = payload.account_type;
  currency = payload.currency;
  active = true;
}

abbrev pub add_account : Principal → LedgerAccount → LedgerDb → LedgerDb
add_account principal item db =
    log_event
      (record {
        action = "FINANCE_LEDGER_ACCOUNT_CREATED";
        resource_id = item.id;
        organization_id = item.organization_id;
        actor_id = principal.subject;
      })
      (record db { accounts = db.accounts ++ item ∷ [] })

unfoldable pub create_ledger_account :
    Host → Principal → LedgerAccountCreate → ℕ → Option LedgerDb → LedgerAction LedgerAccount
create_ledger_account host principal payload account_id race = do
  require_finance_permission principal "finance.manage"
  organization_id ← active_organization principal
  existing ← gets (λ db.
      find
        (λ (a : LedgerAccount).
          a.organization_id == organization_id
          && same_text a.code (host.upper (host.strip payload.code)))
        db.accounts)
  raise_unless (is_none existing) account_code_exists
  let item = new_account host payload organization_id account_id
  commit_or race account_code_exists (add_account principal item) item

-- the query for a period of the organization that overlaps the new one
abbrev pub overlaps : ℕ → ℕ → ℕ → AccountingPeriod → Bool
overlaps organization_id starts_at ends_at p =
    p.organization_id == organization_id && ltb p.starts_at ends_at && ltb starts_at p.ends_at

abbrev pub new_period : Host → AccountingPeriodCreate → ℕ → ℕ → AccountingPeriod
new_period host payload organization_id period_id = record {
  id = period_id;
  organization_id = organization_id;
  name = host.strip payload.name;
  starts_at = payload.starts_at;
  ends_at = payload.ends_at;
  status = opened;
  closed_at = none;
  closed_by = none;
}

abbrev pub add_period : Principal → AccountingPeriod → LedgerDb → LedgerDb
add_period principal item db =
    log_event
      (record {
        action = "FINANCE_PERIOD_CREATED";
        resource_id = item.id;
        organization_id = item.organization_id;
        actor_id = principal.subject;
      })
      (record db { periods = db.periods ++ item ∷ [] })

-- the part of `create_accounting_period` after the organization is known
unfoldable pub create_period_in :
    Host
    → Principal
    → AccountingPeriodCreate
    → ℕ
    → Option LedgerDb
    → ℕ
    → LedgerAction AccountingPeriod
create_period_in host principal payload period_id race organization_id = do
  overlap ←
      gets (λ db. find (overlaps organization_id payload.starts_at payload.ends_at) db.periods)
  raise_unless (is_none overlap) accounting_period_overlap
  let item = new_period host payload organization_id period_id
  commit_or race accounting_period_exists (add_period principal item) item

unfoldable pub create_accounting_period :
    Host → Principal → AccountingPeriodCreate → ℕ → Option LedgerDb → LedgerAction AccountingPeriod
create_accounting_period host principal payload period_id race = do
  require_finance_permission principal "finance.manage"
  organization_id ← active_organization principal
  create_period_in host principal payload period_id race organization_id

abbrev pub closed_period : Host → Principal → AccountingPeriod → AccountingPeriod
closed_period host principal p = record p {
  status = closed;
  closed_at = some host.now;
  closed_by = some principal.subject;
}

abbrev pub save_period : Principal → AccountingPeriod → LedgerDb → LedgerDb
save_period principal p db =
    log_event
      (record {
        action = "FINANCE_PERIOD_CLOSED";
        resource_id = p.id;
        organization_id = p.organization_id;
        actor_id = principal.subject;
      })
      (record db { periods = put (λ (r : AccountingPeriod). r.id) p db.periods })

-- the query for the period
abbrev pub is_period : ℕ → ℕ → AccountingPeriod → Bool
is_period period_id organization_id p = p.id == period_id && p.organization_id == organization_id

-- the part of `close_accounting_period` after the organization is known
unfoldable pub close_period_in : Host → Principal → ℕ → ℕ → LedgerAction AccountingPeriod
close_period_in host principal period_id organization_id = do
  found ← gets (λ db. find (is_period period_id organization_id) db.periods)
  period ← or_raise found period_missing
  raise_unless (is_open period.status) period_not_open
  modify (save_period principal (closed_period host principal period))
  pure (closed_period host principal period)

unfoldable pub close_accounting_period : Host → Principal → ℕ → LedgerAction AccountingPeriod
close_accounting_period host principal period_id = do
  require_finance_permission principal "finance.manage"
  organization_id ← active_organization principal
  close_period_in host principal period_id organization_id
