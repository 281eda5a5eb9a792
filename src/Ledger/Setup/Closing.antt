-- ===== src/Ledger/Setup/Closing.antt =====
-- What a call of `close_accounting_period` of app/financial_service.py does, however it ends.
use moneybee_backend.Base.{
  ℕ, ◌≡◌, ◌≤◌, refl, arith, true, some, List, [], ◌∷◌, ◌++◌, find, put, Bool-cases, inl, inr, ap,
  ◌∙◌, sym, subst, false,
}
use moneybee_backend.Base.Action.{Result, ok, err, ◌>>=◌, >>=-of_ok}
use moneybee_backend.Base.Oldest.{Listed}
use moneybee_backend.Principal.{Principal}
use moneybee_backend.Ledger.Records.{
  AccountingPeriod, PeriodStatus, opened, closed, locked, LedgerEvent, LedgerDb, LedgerProblem,
  Host,
}
use moneybee_backend.Ledger.Access.{require_finance_permission, active_organization}
use moneybee_backend.Ledger.Journal.{is_open}
use moneybee_backend.Ledger.Setup.{save_period, is_period, close_period_in, close_accounting_period}
use moneybee_backend.Ledger.Setup.Periods.{periods_with, shut, found_period}
use moneybee_backend.Ledger.Setup.Calendar.{
  IsCalendar, Closes, close_accounting_period-cases, IsCalendar-close,
}
use moneybee_backend.Ledger.Setup.Managers.{
  Manages, checked-Manages, Manages-active_organization, Manages-require_finance_permission,
}

-- The stored period with this id, open, of the organization that the caller manages.
pub record IsClosable (principal : Principal) (period_id : ℕ) (db : LedgerDb) (p : AccountingPeriod)
    : Type 0 where
  pub listed : Listed p db.periods
  pub id : p.id ≡ period_id
  pub managed : Manages principal p.organization_id
  pub status : p.status ≡ opened

-- `p'` is `p`, closed now by the caller.
pub record IsShut (host : Host) (principal : Principal) (p p' : AccountingPeriod) : Type 0 where
  pub status : p'.status ≡ closed
  pub closed_at : p'.closed_at ≡ some host.now
  pub closed_by : p'.closed_by ≡ some principal.subject
  pub id : p'.id ≡ p.id
  pub organization_id : p'.organization_id ≡ p.organization_id
  pub name : p'.name ≡ p.name
  pub starts_at : p'.starts_at ≡ p.starts_at
  pub ends_at : p'.ends_at ≡ p.ends_at

abbrev closing_event : Principal → AccountingPeriod → LedgerEvent
closing_event principal p = record {
  action = "FINANCE_PERIOD_CLOSED";
  resource_id = p.id;
  organization_id = p.organization_id;
  actor_id = principal.subject;
}

-- only the row of `p'` and the two logs differ
pub record IsOnlyShut (principal : Principal) (p' : AccountingPeriod) (db db' : LedgerDb)
    : Type 0 where
  pub periods : db'.periods ≡ put (λ (r : AccountingPeriod). r.id) p' db.periods
  pub accounts : db'.accounts ≡ db.accounts
  pub entries : db'.entries ≡ db.entries
  pub postings : db'.postings ≡ db.postings
  pub audit : db'.audit ≡ db.audit ++ closing_event principal p' ∷ []
  pub outbox : db'.outbox ≡ db.outbox ++ closing_event principal p' ∷ []

module _ (host : Host) (principal : Principal) (period_id : ℕ) (db : LedgerDb) where
  -- What a close promises: it is refused and no period can be closed by it, or it closes the one
  -- that can.
  abbrev pub Shuts : Result LedgerProblem AccountingPeriod × LedgerDb → Type 0
  Shuts (err x, db') = (db' ≡ db) × ((p : AccountingPeriod) → ¬ IsClosable principal period_id db p)
  Shuts (ok p', db') =
      (p : AccountingPeriod) × IsClosable principal period_id db p
      × IsShut host principal p p'
      × IsOnlyShut principal p' db db'
      × IsCalendar db'

find-Listed :
    (k o : ℕ) (p : AccountingPeriod) (ps : List AccountingPeriod)
    → find (is_period k o) ps ≡ some p
    → Listed p ps
find-Listed k o p [] h = cc
find-Listed k o p (q ∷ ps) h = elim (Bool-cases (is_period k o q)) [
  | inl hit ↦ inl (cc (rw hit at h))
  | inr miss ↦ inr (find-Listed k o p ps (rw miss at h))
]

Listed-periods_with :
    (p : AccountingPeriod) (ps : List AccountingPeriod) → Listed p ps → 1 ≤ periods_with p.id ps
Listed-periods_with p [] h = elim h [ ]
Listed-periods_with p (q ∷ ps) (inl same) =
    let same_id : q.id ≡ p.id = ap (λ (x : AccountingPeriod). x.id) same in ground arith
Listed-periods_with p (q ∷ ps) (inr later) = omega (arith, Listed-periods_with p ps later)

-- With unique ids the query for a listed period finds it.
Listed-find :
    (p : AccountingPeriod) (ps : List AccountingPeriod)
    → periods_with p.id ps ≤ 1
    → Listed p ps
    → find (is_period p.id p.organization_id) ps ≡ some p
Listed-find p [] one h = elim h [ ]
Listed-find p (q ∷ ps) one (inl same) =
    let hit : is_period p.id p.organization_id q ≡ true =
      subst (λ (x : AccountingPeriod). is_period x.id x.organization_id q ≡ true) same
        (ground arith) in
    rw hit (ap some same)
Listed-find p (q ∷ ps) one (inr later) =
    let more = Listed-periods_with p ps later in
    let miss : is_period p.id p.organization_id q ≡ false = ground arith in
    rw miss (Listed-find p ps (ground arith) later)

is_open_lem : (s : PeriodStatus) → is_open s ≡ true → s ≡ opened
is_open_lem opened h = refl
is_open_lem closed h = cc
is_open_lem locked h = cc

module _ (host : Host) (principal : Principal) (period_id : ℕ) (db : LedgerDb) where
  -- A period that can be closed is closed.
  closable_ok :
      (p : AccountingPeriod)
      → IsCalendar db
      → IsClosable principal period_id db p
      → close_accounting_period host principal period_id db
        ≡ (ok (shut host principal p), save_period principal (shut host principal p) db)
  unfolding close_accounting_period close_period_in
  closable_ok p calendar can =
      let permit = require_finance_permission principal "finance.manage" in
      let next = close_period_in host principal period_id in
      let start = active_organization principal >>= next in
      let found : find (is_period period_id p.organization_id) db.periods ≡ some p =
        subst (λ k. find (is_period k p.organization_id) db.periods ≡ some p) can.id
          (Listed-find p db.periods (calendar.one_period p.id) can.listed) in
      >>=-of_ok permit (λ u. start) db
        (Manages-require_finance_permission principal p.organization_id db can.managed)
      ∙ >>=-of_ok (active_organization principal) next db
          (Manages-active_organization principal p.organization_id db can.managed)
      ∙ rw (found, can.status) refl

  closed_period-Shuts :
      (o : ℕ) (p : AccountingPeriod)
      → IsCalendar db
      → Closes host principal period_id db o p
      → Shuts host principal period_id db
          (ok (shut host principal p), save_period principal (shut host principal p) db)
  closed_period-Shuts o p calendar closes =
      let (same_id, same_o, c) =
        found_period host principal period_id o p db.periods closes.found in
      (
        p,
        record {
          listed = find-Listed period_id o p db.periods closes.found;
          id = same_id;
          managed =
              subst (Manages principal) (sym same_o)
                (checked-Manages principal o db closes.permitted closes.organization);
          status = is_open_lem p.status closes.opened;
        },
        record {
          status = refl;
          closed_at = refl;
          closed_by = refl;
          id = refl;
          organization_id = refl;
          name = refl;
          starts_at = refl;
          ends_at = refl;
        },
        record {
          periods = refl;
          accounts = refl;
          entries = refl;
          postings = refl;
          audit = refl;
          outbox = refl;
        },
        IsCalendar-close host principal period_id db o p calendar closes.found,
      )

  -- If an organization has at most one period at any moment and period ids are unique: a close is
  -- refused and changes nothing, and then no stored period with this id is open and of the
  -- organization that the caller acts for and may manage; or it answers with such a period, now closed
  -- at the time of the call by the caller and else as before. This row and an entry in either log
  -- are all that changes, and the calendar is kept.
  pub close_accounting_period-Shuts :
      IsCalendar db
      → Shuts host principal period_id db (close_accounting_period host principal period_id db)
  close_accounting_period-Shuts calendar =
      elim (close_accounting_period-cases host principal period_id db) [
        | inl (x, raised) ↦ rw raised (refl, λ p can. cc (sym raised ∙ closable_ok p calendar can))
        | inr (o, p, closes) ↦ rw closes.call (closed_period-Shuts o p calendar closes)
      ]
