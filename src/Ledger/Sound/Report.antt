-- ===== src/Ledger/Sound/Report.antt =====
-- What `trial_balance` answers in a sound ledger.
use moneybee_backend.Base.{
  ℕ, ◌≡◌, refl, String, true, Option, none, some, List, [], ◌∷◌, inl, inr, ◌∙◌,
}
use moneybee_backend.Base.Action.{Result, ok, err, ◌>>=◌, >>=-of_ok, >>=-of_err}
use moneybee_backend.Principal.{Principal}
use moneybee_backend.Ledger.Records.{LedgerDb, LedgerProblem, Host}
use moneybee_backend.Ledger.Access.{require_finance_permission, active_organization}
use moneybee_backend.Ledger.Journal.Entry.{
  require_finance_permission-cases, active_organization-cases,
}
use moneybee_backend.Ledger.Balance.{
  TrialBalanceRead, trial_balance, report, report_on, available_in,
}
use moneybee_backend.Ledger.Sound.{IsSound}
use moneybee_backend.Ledger.Sound.Balanced.{read_balance_balanced}

-- A call that changes nothing and, where it returns, returns a balanced report.
abbrev pub Balances : LedgerDb → Result LedgerProblem TrialBalanceRead × LedgerDb → Type 0
Balances db (ok report, db') = (db' ≡ db) × (report.balanced ≡ true)
Balances db (err x, db') = db' ≡ db

report-Balances :
    (host : Host) (o : ℕ) (as_of : Option ℕ) (currency : Option String) (available : List String)
    (db : LedgerDb)
    → IsSound db
    → Balances db (report host o as_of currency available db)
unfolding report
report-Balances host o as_of (some c) available db sound =
    (refl, read_balance_balanced o _ _ db sound)
report-Balances host o as_of none [] db sound = (refl, read_balance_balanced o _ _ db sound)
report-Balances host o as_of none (c ∷ []) db sound = (refl, read_balance_balanced o _ _ db sound)
report-Balances host o as_of none (c ∷ d ∷ rest) db sound = refl

-- In a sound ledger a call of `trial_balance` changes nothing, and a report that it returns has
-- equal debit and credit totals.
pub trial_balance-Balances :
    (host : Host) (principal : Principal) (as_of : Option ℕ) (currency : Option String)
    (db : LedgerDb)
    → IsSound db
    → Balances db (trial_balance host principal as_of currency db)
unfolding trial_balance
trial_balance-Balances host principal as_of currency db sound =
    let permit = require_finance_permission principal "finance.read" in
    let start = active_organization principal >>= report_on host as_of currency in
    elim (require_finance_permission-cases principal "finance.read" db) [
      | inr (x, denied) ↦ rw (>>=-of_err permit (λ u. start) db denied) refl
      | inl granted ↦ elim (active_organization-cases principal db) [
        | inr (x, outside) ↦
            rw
              (>>=-of_ok permit (λ u. start) db granted
                ∙ >>=-of_err (active_organization principal) (report_on host as_of currency) db
                    outside)
              refl
        | inl (o, organization) ↦
            rw
              (>>=-of_ok permit (λ u. start) db granted
                ∙ >>=-of_ok (active_organization principal) (report_on host as_of currency) db
                    organization)
              (report-Balances host o as_of currency (available_in o db) db sound)
      ]
    ]
