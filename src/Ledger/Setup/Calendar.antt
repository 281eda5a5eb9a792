-- ===== src/Ledger/Setup/Calendar.antt =====
-- `create_accounting_period` and `close_accounting_period` of app/financial_service.py.
use moneybee_backend.Base.{
  ℕ, ◌≤◌, ◌≡◌, refl, arith, true, Option, none, some, ◌==◌, find, Bool-cases, Option-cases, inl,
  inr, ◌⊎◌, ◌∙◌, sym, subst,
}
use moneybee_backend.Base.Action.{ok, ◌>>=◌, >>=-of_ok, >>=-of_err}
use moneybee_backend.Principal.{Principal}
use moneybee_backend.Ledger.Records.{
  AccountingPeriod, AccountingPeriodCreate, LedgerDb, Host, period_missing, period_not_open,
}
use moneybee_backend.Ledger.Access.{require_finance_permission, active_organization}
use moneybee_backend.Ledger.Journal.{is_open}
use moneybee_backend.Ledger.Journal.Cases.{Raised}
use moneybee_backend.Ledger.Journal.Entry.{
  require_finance_permission-cases, active_organization-cases,
}
use moneybee_backend.Ledger.Setup.{
  overlaps, new_period, add_period, commit_or, create_period_in, create_accounting_period,
  save_period, is_period, close_period_in, close_accounting_period,
}
use moneybee_backend.Ledger.Setup.Periods.{
  covers, periods_at, periods_with, periods_at-add, periods_with-add, periods_at-free, shut,
  periods_with-close, periods_at-close,
}

-- The primary key of the periods, and at most one period of an organization at any moment.
pub record IsCalendar (db : LedgerDb) : Type 0 where
  pub one_period : (k : ℕ) → periods_with k db.periods ≤ 1
  pub one_covers : (o t : ℕ) → periods_at o t db.periods ≤ 1

IsCalendar-add :
    (host : Host) (principal : Principal) (payload : AccountingPeriodCreate) (o id : ℕ)
    (db : LedgerDb)
    → IsCalendar db
    → periods_with id db.periods ≡ 0
    → find (overlaps o payload.starts_at payload.ends_at) db.periods ≡ none
    → IsCalendar (add_period principal (new_period host payload o id) db)
IsCalendar-add host principal payload o id db calendar fresh free =
    let p = new_period host payload o id in
    record {
      one_period = λ k. elim (Bool-cases (id == k)) [
        | inl same ↦ ground (arith, periods_with-add k db.periods p, calendar.one_period k)
        | inr other ↦ ground (arith, periods_with-add k db.periods p, calendar.one_period k)
      ];
      one_covers = λ o' t. elim (Bool-cases (covers o' t p)) [
        | inl covered ↦
            let same : o' ≡ o = ground arith in
            let none_at =
              periods_at-free o payload.starts_at payload.ends_at t db.periods free (ground arith)
                (ground arith) in
            let none_here = subst (λ x. periods_at x t db.periods ≡ 0) (sym same) none_at in
            let added = periods_at-add o' t db.periods p in ground arith
        | inr outside ↦
            let added = periods_at-add o' t db.periods p in
            let single = calendar.one_covers o' t in ground arith
      ];
    }

-- the state after `commit_or`
commit_or-state :
    (race : Option LedgerDb) (principal : Principal) (p : AccountingPeriod) (x : _) (db : LedgerDb)
    → IsCalendar (add_period principal p db)
    → ((db' : LedgerDb) → race ≡ some db' → IsCalendar db')
    → IsCalendar (commit_or race x (add_period principal p) p db).1
commit_or-state none principal p x db added raced = added
commit_or-state (some db') principal p x db added raced = raced db' refl

create_period_in-IsCalendar :
    (host : Host) (principal : Principal) (payload : AccountingPeriodCreate) (period_id o : ℕ)
    (race : Option LedgerDb) (db : LedgerDb)
    → IsCalendar db
    → periods_with period_id db.periods ≡ 0
    → ((db' : LedgerDb) → race ≡ some db' → IsCalendar db')
    → IsCalendar (create_period_in host principal payload period_id race o db).1
unfolding create_period_in
create_period_in-IsCalendar host principal payload period_id o race db calendar fresh raced =
    elim (Option-cases (find (overlaps o payload.starts_at payload.ends_at) db.periods)) [
      | inr (p, overlap) ↦ rw overlap calendar
      | inl free ↦ rw free (
          commit_or-state race principal (new_period host payload o period_id) _ db
            (IsCalendar-add host principal payload o period_id db calendar fresh free) raced)
    ]

-- If an organization has at most one period at any moment and period ids are unique, the new id is
-- fresh, and a transaction that came first also left it so, then it is so after
-- `create_accounting_period`, however the call ends.
pub create_accounting_period-IsCalendar :
    (host : Host) (principal : Principal) (payload : AccountingPeriodCreate) (period_id : ℕ)
    (race : Option LedgerDb) (db : LedgerDb)
    → IsCalendar db
    → periods_with period_id db.periods ≡ 0
    → ((db' : LedgerDb) → race ≡ some db' → IsCalendar db')
    → IsCalendar (create_accounting_period host principal payload period_id race db).1
unfolding create_accounting_period
create_accounting_period-IsCalendar host principal payload period_id race db calendar fresh raced =
    let permit = require_finance_permission principal "finance.manage" in
    let next = create_period_in host principal payload period_id race in
    let start = active_organization principal >>= next in
    elim (require_finance_permission-cases principal "finance.manage" db) [
      | inr (x, denied) ↦ rw (>>=-of_err permit (λ u. start) db denied) calendar
      | inl granted ↦ elim (active_organization-cases principal db) [
        | inr (x, outside) ↦
            rw
              (>>=-of_ok permit (λ u. start) db granted
                ∙ >>=-of_err (active_organization principal) next db outside)
              calendar
        | inl (o, organization) ↦
            rw
              (>>=-of_ok permit (λ u. start) db granted
                ∙ >>=-of_ok (active_organization principal) next db organization)
              (create_period_in-IsCalendar host principal payload period_id o race db calendar fresh
                raced)
      ]
    ]

module _ (host : Host) (principal : Principal) (period_id : ℕ) (db : LedgerDb) where
  -- A close that returns: the period that it closed.
  pub record Closes (o : ℕ) (p : AccountingPeriod) : Type 0 where
    pub permitted : require_finance_permission principal "finance.manage" db ≡ (ok tt, db)
    pub organization : active_organization principal db ≡ (ok o, db)
    pub found : find (is_period period_id o) db.periods ≡ some p
    pub opened : is_open p.status ≡ true
    pub call :
        close_accounting_period host principal period_id db
        ≡ (ok (shut host principal p), save_period principal (shut host principal p) db)

  pub close_accounting_period-cases :
      Raised db (close_accounting_period host principal period_id db)
      ⊎ ((o : ℕ) × (p : AccountingPeriod) × Closes o p)
  unfolding close_accounting_period close_period_in
  close_accounting_period-cases =
      let permit = require_finance_permission principal "finance.manage" in
      let next = close_period_in host principal period_id in
      let start = active_organization principal >>= next in
      elim (require_finance_permission-cases principal "finance.manage" db) [
        | inr (x, denied) ↦ inl (x, >>=-of_err permit (λ u. start) db denied)
        | inl granted ↦ elim (active_organization-cases principal db) [
          | inr (x, outside) ↦ inl (
            x,
            >>=-of_ok permit (λ u. start) db granted
                ∙ >>=-of_err (active_organization principal) next db outside,
          )
          | inl (o, organization) ↦
              let e =
                >>=-of_ok permit (λ u. start) db granted
                ∙ >>=-of_ok (active_organization principal) next db organization in
              elim (Option-cases (find (is_period period_id o) db.periods)) [
                | inl missing ↦ inl (period_missing, e ∙ rw missing)
                | inr (p, found) ↦ elim (Bool-cases (is_open p.status)) [
                  | inr shut_before ↦ inl (period_not_open, e ∙ rw (found, shut_before))
                  | inl opened ↦ inr (
                    o,
                    p,
                    record {
                      permitted = granted;
                      organization = organization;
                      opened = opened;
                      found = found;
                      call = e ∙ rw (found, opened);
                    },
                  )
                ]
              ]
        ]
      ]

  pub IsCalendar-close :
      (o : ℕ) (p : AccountingPeriod)
      → IsCalendar db
      → find (is_period period_id o) db.periods ≡ some p
      → IsCalendar (save_period principal (shut host principal p) db)
  IsCalendar-close o p calendar found = record {
    one_period = λ k.
        subst (λ n. n ≤ 1) (sym (periods_with-close host principal k p db.periods))
          (calendar.one_period k);
    one_covers = λ o' t.
        subst (λ n. n ≤ 1)
          (sym (
            periods_at-close host principal o' t period_id o p db.periods found
              (calendar.one_period period_id)))
          (calendar.one_covers o' t);
  }
