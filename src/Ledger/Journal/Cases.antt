-- ===== src/Ledger/Journal/Cases.antt =====
-- The ways in which `post_journal` can go.
use moneybee_backend.Base.{
  ℕ, ◌≡◌, refl, arith, String, true, ◌&&◌, ◌||◌, not, Option, some, List, [], ◌∷◌, ◌==◌, ltb, ◌<◌,
  ◌⊎◌, length, ==_iff, Bool-cases, Option-cases, inl, inr, ◌∙◌,
}
use moneybee_backend.Base.Action.{Result, ok, err, >>=-of_ok, >>=-of_err, ◌>>=◌}
use moneybee_backend.Principal.{Principal}
use moneybee_backend.Ledger.Records.{
  LedgerAccount, AccountingPeriod, JournalEntryCreate, LedgerDb, LedgerProblem, Host,
  unbalanced_journal, account_not_found, account_access_denied, currency_mismatch,
  accounting_period_required, accounting_period_closed, LedgerAction,
}
use moneybee_backend.Ledger.Journal.{
  Posted, same_text, input_debits, input_credits, account_ids, period_for_date, check_accounts,
  is_open, new_entry, new_postings, commit_journal, named_accounts, post_in_period, post_new,
}

-- A call that raised and left the session as it was.
abbrev pub Raised : {A : Type 0} → LedgerDb → Result LedgerProblem A × LedgerDb → Type 0
Raised db r = (x : LedgerProblem) × (r ≡ (err x, db))

abbrev pub Returned : {A : Type 0} → LedgerDb → Result LedgerProblem A × LedgerDb → Type 0
Returned {A} db r = (a : A) × (r ≡ (ok a, db))

-- Reads and checks leave the session as it is.
check_accounts-cases :
    (o : ℕ) (currency : String) (accounts : List LedgerAccount) (db : LedgerDb)
    → (check_accounts o currency accounts db ≡ (ok tt, db))
      ⊎ Raised db (check_accounts o currency accounts db)
unfolding check_accounts
check_accounts-cases o currency [] db = inl refl
check_accounts-cases o currency (a ∷ rest) db =
    elim (Bool-cases (not (a.organization_id == o) || not a.active)) [
      | inl denied ↦ inr (account_access_denied, rw denied)
      | inr allowed ↦ elim (Bool-cases (not (same_text a.currency currency))) [
        | inl other ↦ inr (currency_mismatch, rw (allowed, other))
        | inr same ↦ rw (allowed, same) (check_accounts-cases o currency rest db)
      ]
    ]

-- What a command that is accepted has been checked for.
pub record Accepted (db : LedgerDb) (o : ℕ) (payload : JournalEntryCreate)
    (period : AccountingPeriod) : Type 0 where
  pub even : input_debits payload.postings ≡ input_credits payload.postings
  pub positive : 0 < input_debits payload.postings
  pub found : length (named_accounts payload db) ≡ length (account_ids payload.postings)
  pub checked : check_accounts o payload.currency (named_accounts payload db) db ≡ (ok tt, db)
  pub covered : period_for_date o payload.effective_at db ≡ some period
  pub opened : is_open period.status ≡ true

module _ (host : Host) (principal : Principal) (payload : JournalEntryCreate) (key : String)
    (o entry_id : ℕ) (race : Option LedgerDb) (db : LedgerDb) where
  abbrev Commits : AccountingPeriod → Type 0
  Commits period =
      post_new host principal payload key o entry_id race db
      ≡ commit_journal race (new_entry host principal payload key o period.id entry_id)
          (new_postings entry_id payload.currency payload.postings) db

  balance_parts :
      (input_debits payload.postings == input_credits payload.postings
          && ltb 0 (input_debits payload.postings))
        ≡ true
      → (input_debits payload.postings ≡ input_credits payload.postings)
        × (0 < input_debits payload.postings)
  balance_parts h = ground arith

  abbrev tail : LedgerAction Posted
  tail = post_in_period host principal payload key o entry_id race

  post_in_period-cases :
      Raised db (tail db)
      ⊎ ((period : AccountingPeriod) × (period_for_date o payload.effective_at db ≡ some period)
          × (is_open period.status ≡ true)
          × (tail db
              ≡ commit_journal race
                  (new_entry host principal payload key o period.id entry_id)
                  (new_postings entry_id payload.currency payload.postings)
                  db))
  unfolding post_in_period
  post_in_period-cases = elim (Option-cases (period_for_date o payload.effective_at db)) [
    | inl uncovered ↦ inl (accounting_period_required, rw uncovered)
    | inr (period, covered) ↦ elim (Bool-cases (is_open period.status)) [
      | inr shut ↦ inl (accounting_period_closed, rw (covered, shut))
      | inl opened ↦ inr (period, covered, opened, rw (covered, opened))
    ]
  ]

  checks : LedgerAction (Unit {0})
  checks = check_accounts o payload.currency (named_accounts payload db)

  -- With even sums and every account found, the command goes on to the check of the accounts.
  checked_tail :
      (input_debits payload.postings == input_credits payload.postings
          && ltb 0 (input_debits payload.postings))
        ≡ true
      → (length (named_accounts payload db) == length (account_ids payload.postings)) ≡ true
      → post_new host principal payload key o entry_id race db ≡ (checks >>= λ x. tail) db
  unfolding post_new checks
  checked_tail even found = rw (even, found)

  accepted :
      (input_debits payload.postings == input_credits payload.postings
          && ltb 0 (input_debits payload.postings))
        ≡ true
      → (length (named_accounts payload db) == length (account_ids payload.postings)) ≡ true
      → checks db ≡ (ok tt, db)
      → Raised db (post_new host principal payload key o entry_id race db)
        ⊎ ((period : AccountingPeriod) × Accepted db o payload period × Commits period)
  unfolding checks
  accepted even found checked =
      let e = checked_tail even found ∙ >>=-of_ok checks (λ x. tail) db checked in
      elim post_in_period-cases [
        | inl (x, raised) ↦ inl (x, e ∙ raised)
        | inr (period, covered, opened, commits) ↦ inr (
          period,
          record {
            even = (balance_parts even).0;
            positive = (balance_parts even).1;
            found = (==_iff _ _).0 found;
            checked = checked;
            covered = covered;
            opened = opened;
          },
          e ∙ commits,
        )
      ]

  pub post_new-cases :
      Raised db (post_new host principal payload key o entry_id race db)
      ⊎ ((period : AccountingPeriod) × Accepted db o payload period × Commits period)
  unfolding post_new checks
  post_new-cases =
      elim (Bool-cases (
        input_debits payload.postings == input_credits payload.postings
        && ltb 0 (input_debits payload.postings))) [
          | inr odd ↦ inl (unbalanced_journal, rw odd)
          | inl even ↦
              elim (Bool-cases
                (length (named_accounts payload db) == length (account_ids payload.postings))) [
                  | inr missing ↦ inl (account_not_found, rw (even, missing))
                  | inl found ↦
                      elim (check_accounts-cases o payload.currency (named_accounts payload db)
                        db) [
                          | inl checked ↦ accepted even found checked
                          | inr (x, denied) ↦
                              inl (
                                x,
                                checked_tail even found ∙ >>=-of_err checks (λ u. tail) db denied,
                              )
                        ]
                ]
        ]
