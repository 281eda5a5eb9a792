-- ===== src/Ledger/Journal/Outcomes.antt =====
-- What `post_journal` has done when it ends, and what a repeated command gets.
use moneybee_backend.Base.{
  ℕ, ◌≡◌, refl, arith, String, Bool, true, false, Option, none, some, List, [], ◌∷◌, ◌++◌, find,
  ◌&&◌, ◌==◌, ==_refl, ◌<◌, inl, inr, ◌∙◌, sym, if◌then◌else◌, subst, Bool-cases, equal_refl,
}
use moneybee_backend.Base.Text.{String-discrete}
use moneybee_backend.Base.Action.{Result, ok, err}
use moneybee_backend.Principal.{Principal}
use moneybee_backend.Ledger.Records.{
  AccountingPeriod, JournalEntry, JournalPosting, JournalEntryCreate, LedgerDb, LedgerProblem, Host,
  idempotency_conflict,
}
use moneybee_backend.Ledger.Journal.{
  Posted, same_text, input_debits, input_credits, period_for_date, entry_for_key, postings_of,
  is_open, new_entry, new_postings, add_journal, commit_journal, post_journal,
}
use moneybee_backend.Ledger.Journal.Cases.{post_new-cases}
use moneybee_backend.Ledger.Journal.Entry.{post_journal-cases, replays_call, Admitted-at}

-- The entry and the postings that an accepted command becomes.
pub record Records (payload : JournalEntryCreate) (period : AccountingPeriod) (e : JournalEntry)
    (ps : List JournalPosting) : Type 0 where
  pub currency : e.currency ≡ payload.currency
  pub effective_at : e.effective_at ≡ payload.effective_at
  pub period_id : e.period_id ≡ period.id
  pub postings : ps ≡ new_postings e.id payload.currency payload.postings

-- What a call that no other transaction races with can end in.
abbrev pub Posts : JournalEntryCreate → LedgerDb → Result LedgerProblem Posted × LedgerDb → Type 0
Posts payload db (err x, db') = db' ≡ db
Posts payload db (ok (e, ps, true), db') = (db' ≡ db) × (ps ≡ postings_of e.id db)
Posts payload db (ok (e, ps, false), db') =
    (db' ≡ add_journal e ps db)
    × (input_debits payload.postings ≡ input_credits payload.postings)
    × (0 < input_debits payload.postings)
    × ((period : AccountingPeriod) × Records payload period e ps
        × (period_for_date e.organization_id payload.effective_at db ≡ some period)
        × (is_open period.status ≡ true))

-- A call that no other transaction races with either raises and changes nothing, or answers with a
-- stored entry and its postings and changes nothing, or adds the entry and the postings of the
-- command, whose debits and credits are equal and above zero, under an open period of the
-- organization that covers the effective date.
pub post_journal-Posts :
    (host : Host) (principal : Principal) (payload : JournalEntryCreate) (raw_key : String)
    (entry_id : ℕ) (db : LedgerDb)
    → Posts payload db (post_journal host principal payload raw_key entry_id none db)
unfolding commit_journal
post_journal-Posts host principal payload raw_key entry_id db =
    elim (post_journal-cases host principal payload raw_key entry_id none db) [
      | inl (x, raised) ↦ rw raised refl
      | inr (o, key, admitted, inl (e, replays, replayed)) ↦ rw replayed (refl, refl)
      | inr (o, key, admitted, inr (unused, goes)) ↦
          elim (post_new-cases host principal payload key o entry_id none db) [
            | inl (x, raised) ↦ rw (goes, raised) refl
            | inr (period, accepted, commits) ↦
                rw (goes, commits)
                  (
                    refl,
                    accepted.even,
                    accepted.positive,
                    (
                      period,
                      record {
                        currency = refl;
                        effective_at = refl;
                        period_id = refl;
                        postings = refl;
                      },
                      accepted.covered,
                      accepted.opened,
                    ),
                  )
          ]
    ]

find-append {ℓ} :
    {A : Type ℓ} (p : A → Bool) (xs : List A) (x : A)
    → find p xs ≡ none
    → p x ≡ true
    → find p (xs ++ x ∷ []) ≡ some x
find-append p [] x h k = rw k
find-append p (y ∷ xs) x h k = elim (Bool-cases (p y)) [
  | inl hit ↦ absurd (ground arith)
  | inr miss ↦ rw miss (find-append p xs x (rw miss at h) k)
]

same_text_refl : (a : String) → same_text a a ≡ true
unfolding same_text
same_text_refl a = equal_refl String-discrete a

entry_for_key-add :
    (o : ℕ) (key : String) (db : LedgerDb) (e : JournalEntry) (ps : List JournalPosting)
    → entry_for_key o key db ≡ none
    → e.organization_id ≡ o
    → e.idempotency_key ≡ key
    → entry_for_key o key (add_journal e ps db) ≡ some e
unfolding entry_for_key
entry_for_key-add o key db e ps unused same_o same_key =
    find-append (λ (x : JournalEntry). x.organization_id == o && same_text x.idempotency_key key)
      db.entries e unused (rw (same_o, same_key, ==_refl o, same_text_refl key))

abbrev entry_or : JournalEntry → Result LedgerProblem Posted → JournalEntry
entry_or default (ok (e, _, _)) = e
entry_or default (err _) = default

-- After a command was posted, the same key with any command of the same caller is answered without
-- a change: with the stored entry and its postings if the commands have the same hash, else with
-- `IDEMPOTENCY_CONFLICT`.
pub post_journal_again :
    (host : Host) (principal : Principal) (payload payload' : JournalEntryCreate) (raw_key : String)
    (entry_id entry_id' : ℕ) (race : Option LedgerDb) (db db' : LedgerDb) (e : JournalEntry)
    (ps : List JournalPosting)
    → post_journal host principal payload raw_key entry_id none db ≡ (ok (e, ps, false), db')
    → post_journal host principal payload' raw_key entry_id' race db' ≡ (
        if same_text (host.request_hash payload) (host.request_hash payload')
        then (ok (e, postings_of e.id db', true), db')
        else (err idempotency_conflict, db'))
unfolding commit_journal
post_journal_again host principal payload payload' raw_key entry_id entry_id' race db db' e ps
      posted =
    elim (post_journal-cases host principal payload raw_key entry_id none db) [
      | inl (x, raised) ↦ cc (sym raised ∙ posted)
      | inr (o, key, admitted, inl (old, replays, replayed)) ↦ cc (sym replayed ∙ posted)
      | inr (o, key, admitted, inr (unused, goes)) ↦
          elim (post_new-cases host principal payload key o entry_id none db) [
            | inl (x, raised) ↦ cc (sym raised ∙ sym goes ∙ posted)
            | inr (period, accepted, commits) ↦
                let entry = new_entry host principal payload key o period.id entry_id in
                let after =
                  add_journal entry (new_postings entry_id payload.currency payload.postings) db in
                subst
                  (λ (r : Result LedgerProblem Posted × LedgerDb).
                    post_journal host principal payload' raw_key entry_id' race r.1 ≡ (
                      if same_text (host.request_hash payload) (host.request_hash payload')
                      then (
                        ok (entry_or entry r.0, postings_of (entry_or entry r.0).id r.1, true),
                        r.1,
                      )
                      else (err idempotency_conflict, r.1)))
                  (sym commits ∙ sym goes ∙ posted)
                  (replays_call host principal payload' raw_key entry_id' race after o key entry
                    (Admitted-at host principal payload payload' raw_key entry_id entry_id' none
                      race db after o key admitted)
                    (entry_for_key-add o key db entry
                      (new_postings entry_id payload.currency payload.postings) unused refl refl))
          ]
    ]
