-- ===== src/Ledger/Setup/Shut.antt =====
-- Journals and closed accounting periods, app/financial_service.py.
use moneybee_backend.Base.{
  ℕ, ◌≤◌, ◌<◌, ◌≡◌, ◌≢◌, arith, String, false, none, some, List, find, inl, inr, ap, ◌∙◌, sym,
  subst,
}
use moneybee_backend.Base.Action.{ok}
use moneybee_backend.Principal.{Principal}
use moneybee_backend.Ledger.Records.{
  AccountingPeriod, JournalEntry, JournalPosting, JournalEntryCreate, LedgerDb, Host,
}
use moneybee_backend.Ledger.Journal.{is_open, period_for_date, post_journal}
use moneybee_backend.Ledger.Journal.Outcomes.{Posts, post_journal-Posts}
use moneybee_backend.Ledger.Setup.{save_period, is_period, close_accounting_period}
use moneybee_backend.Ledger.Setup.Periods.{covers, shut, find-close, found_period}
use moneybee_backend.Ledger.Setup.Calendar.{IsCalendar, close_accounting_period-cases}

period_for_date-shut :
    (host : Host) (principal : Principal) (period_id o t : ℕ) (db : LedgerDb) (p : AccountingPeriod)
    → IsCalendar db
    → find (is_period period_id o) db.periods ≡ some p
    → p.starts_at ≤ t
    → t < p.ends_at
    → period_for_date p.organization_id t (save_period principal (shut host principal p) db)
      ≡ some (shut host principal p)
unfolding period_for_date
period_for_date-shut host principal period_id o t db p calendar found from to =
    let (a, same_o, c) = found_period host principal period_id o p db.periods found in
    subst
      (λ x.
        find (covers x t) (save_period principal (shut host principal p) db).periods
        ≡ some (shut host principal p))
      (sym same_o)
      (find-close host principal t period_id o p db.periods found (calendar.one_period period_id)
        (calendar.one_covers o t) (ground arith))

-- After a period was closed, a journal that takes effect in it is not posted for its
-- organization, whoever posts it, if before the close every organization had at most one period
-- at any moment and period ids were unique.
pub post_journal_after_close :
    (host host' : Host) (principal principal' : Principal) (period_id entry_id : ℕ)
    (db db' db'' : LedgerDb) (p : AccountingPeriod) (payload : JournalEntryCreate)
    (raw_key : String) (e : JournalEntry) (ps : List JournalPosting)
    → IsCalendar db
    → close_accounting_period host principal period_id db ≡ (ok p, db')
    → p.starts_at ≤ payload.effective_at
    → payload.effective_at < p.ends_at
    → post_journal host' principal' payload raw_key entry_id none db' ≡ (ok (e, ps, false), db'')
    → e.organization_id ≢ p.organization_id
post_journal_after_close host host' principal principal' period_id entry_id db db' db'' p payload
      raw_key e ps calendar closes from to posts same =
    elim (close_accounting_period-cases host principal period_id db) [
      | inl (x, raised) ↦ cc (sym raised ∙ closes)
      | inr (o, old, closing) ↦
          let result = sym closing.call ∙ closes in
          let same_p : shut host principal old ≡ p = cc result in
          let same_db : save_period principal (shut host principal old) db ≡ db' =
            ap (λ r. r.1) result in
          let (a, b, c, (q, records, covered, opened)) =
            subst (Posts payload db') posts
              (post_journal-Posts host' principal' payload raw_key entry_id db') in
          let found =
            period_for_date-shut host principal period_id o payload.effective_at db old calendar
              closing.found
              (subst (λ (x : AccountingPeriod). x.starts_at ≤ payload.effective_at) (sym same_p)
                from)
              (subst (λ (x : AccountingPeriod). payload.effective_at < x.ends_at) (sym same_p)
                to) in
          let now : period_for_date old.organization_id payload.effective_at db'
              ≡ some (shut host principal old) =
            subst
              (λ d.
                period_for_date old.organization_id payload.effective_at d
                ≡ some (shut host principal old))
              same_db found in
          let org : e.organization_id ≡ old.organization_id =
            same ∙ ap (λ (x : AccountingPeriod). x.organization_id) (sym same_p) in
          let there : period_for_date old.organization_id payload.effective_at db' ≡ some q =
            subst (λ x. period_for_date x payload.effective_at db' ≡ some q) org covered in
          let same_q : shut host principal old ≡ q = cc (sym now ∙ there) in
          cc (ap (λ (x : AccountingPeriod). is_open x.status) same_q ∙ opened)
    ]
