-- ===== src/Ledger/Journal/Entry.antt =====
-- The ways in which `post_journal` can go, from its first check on.
use moneybee_backend.Base.{
  ℕ, ◌≡◌, refl, arith, String, true, Option, none, some, ◌⊎◌, Bool-cases, Option-cases, inl, inr,
  ◌∙◌, if_true, if_false, not, if◌then◌else◌, ◌&&◌, ◌||◌, ltb, contains,
}
use moneybee_backend.Base.Action.{Result, ok, err, >>=-of_ok, >>=-of_err, ◌>>=◌}
use moneybee_backend.Principal.{Principal}
use moneybee_backend.Ledger.Records.{
  JournalEntry, JournalEntryCreate, LedgerDb, Host, LedgerProblem, LedgerAction, permission_denied,
  organization_required, organization_access_denied, invalid_idempotency_key, idempotency_conflict,
}
use moneybee_backend.Ledger.Access.{
  has_permission, require_finance_permission, organization_of, active_organization,
  validate_idempotency_key,
}
use moneybee_backend.Ledger.Journal.{
  Posted, same_text, entry_for_key, postings_of, existing_journal, post_new, replay_or_post,
  post_journal,
}
use moneybee_backend.Ledger.Journal.Cases.{Raised, Returned}

pub require_finance_permission-cases :
    (p : Principal) (permission : String) (db : LedgerDb)
    → (require_finance_permission p permission db ≡ (ok tt, db))
      ⊎ Raised db (require_finance_permission p permission db)
unfolding require_finance_permission
require_finance_permission-cases p permission db =
    elim (Bool-cases (not (has_permission p "*") && not (has_permission p permission))) [
      | inl denied ↦ inr (permission_denied, rw denied)
      | inr granted ↦ inl (rw granted)
    ]

organization_of-cases :
    (p : Principal) (active : Option ℕ) (db : LedgerDb)
    → Returned db (organization_of p active db) ⊎ Raised db (organization_of p active db)
organization_of-cases p none db = inr (organization_required, refl)
organization_of-cases p (some o) db =
    elim (Bool-cases (not (has_permission p "*") && not (contains o p.organization_ids))) [
      | inl denied ↦ inr (organization_access_denied, rw denied)
      | inr granted ↦ inl (o, rw granted)
    ]

pub active_organization-cases :
    (p : Principal) (db : LedgerDb)
    → Returned db (active_organization p db) ⊎ Raised db (active_organization p db)
unfolding active_organization
active_organization-cases p db = organization_of-cases p p.active_organization_id db

validate_idempotency_key-cases :
    (host : Host) (value : String) (db : LedgerDb)
    → Returned db (validate_idempotency_key host value db)
      ⊎ Raised db (validate_idempotency_key host value db)
unfolding validate_idempotency_key
validate_idempotency_key-cases host value db =
    elim (Bool-cases
      (ltb (host.len (host.strip value)) 8 || ltb 160 (host.len (host.strip value)))) [
        | inl bad ↦ inr (invalid_idempotency_key, rw bad)
        | inr good ↦ inl (host.strip value, rw good)
      ]

-- the entry that a replay answers with
pub record Replays (db : LedgerDb) (o : ℕ) (key hash : String) (e : JournalEntry) : Type 0 where
  pub found : entry_for_key o key db ≡ some e
  pub same : same_text e.request_hash hash ≡ true

pub existing_journal-cases :
    (o : ℕ) (key hash : String) (db : LedgerDb)
    → Raised db (existing_journal o key hash db)
      ⊎ ((e : JournalEntry) × Replays db o key hash e
          × (existing_journal o key hash db ≡ (ok (some (e, postings_of e.id db, true)), db)))
      ⊎ ((entry_for_key o key db ≡ none) × (existing_journal o key hash db ≡ (ok none, db)))
unfolding existing_journal
existing_journal-cases o key hash db = elim (Option-cases (entry_for_key o key db)) [
  | inl missing ↦ inr (inr (missing, rw missing))
  | inr (e, found) ↦ elim (Bool-cases (same_text e.request_hash hash)) [
    | inl same ↦ inr (inl (e, record { found = found; same = same }, rw (found, same)))
    | inr other ↦ inl (idempotency_conflict, rw (found, other))
  ]
]

existing_journal_found :
    (o : ℕ) (key hash : String) (db : LedgerDb) (e : JournalEntry)
    → entry_for_key o key db ≡ some e
    → existing_journal o key hash db ≡ (
        if same_text e.request_hash hash
        then (ok (some (e, postings_of e.id db, true)), db)
        else (err idempotency_conflict, db))
unfolding existing_journal
existing_journal_found o key hash db e found = elim (Bool-cases (same_text e.request_hash hash)) [
  | inl same ↦ rw (found, same)
  | inr other ↦ rw (found, other)
]

module _ (host : Host) (principal : Principal) (payload : JournalEntryCreate) (raw_key : String)
    (entry_id : ℕ) (race : Option LedgerDb) (db : LedgerDb) where
  abbrev call : Result LedgerProblem Posted × LedgerDb
  call = post_journal host principal payload raw_key entry_id race db

  -- The organization and the key that the command is for.
  pub record Admitted (o : ℕ) (key : String) : Type 0 where
    pub permitted : require_finance_permission principal "finance.post" db ≡ (ok tt, db)
    pub organization : active_organization principal db ≡ (ok o, db)
    pub key_text : validate_idempotency_key host raw_key db ≡ (ok key, db)

  abbrev with_key : ℕ → String → LedgerAction Posted
  with_key o key = existing_journal o key (host.request_hash payload) >>= λ existing.
      replay_or_post existing (post_new host principal payload key o entry_id race)

  abbrev with_organization : ℕ → LedgerAction Posted
  with_organization o = validate_idempotency_key host raw_key >>= λ key. with_key o key

  abbrev start : LedgerAction Posted
  start = active_organization principal >>= λ o. with_organization o

  Admitted-call : (o : ℕ) (key : String) → Admitted o key → call ≡ with_key o key db
  unfolding post_journal
  Admitted-call o key admitted =
      >>=-of_ok (require_finance_permission principal "finance.post") (λ u. start) db
        admitted.permitted
      ∙ >>=-of_ok (active_organization principal) with_organization db admitted.organization
      ∙ >>=-of_ok (validate_idempotency_key host raw_key) (with_key o) db admitted.key_text

  pub replays_call :
      (o : ℕ) (key : String) (e : JournalEntry)
      → Admitted o key
      → entry_for_key o key db ≡ some e
      → call ≡ (
          if same_text e.request_hash (host.request_hash payload)
          then (ok (e, postings_of e.id db, true), db)
          else (err idempotency_conflict, db))
  replays_call o key e admitted found =
      let lookup_key = existing_journal o key (host.request_hash payload) in
      let next = λ (existing : Option Posted).
        replay_or_post existing (post_new host principal payload key o entry_id race) in
      let looked = existing_journal_found o key (host.request_hash payload) db e found in
      Admitted-call o key admitted
      ∙ elim (Bool-cases (same_text e.request_hash (host.request_hash payload))) [
        | inl same ↦ rw same (>>=-of_ok lookup_key next db (looked ∙ if_true _ _ same))
        | inr other ↦ rw other (>>=-of_err lookup_key next db (looked ∙ if_false _ _ other))
      ]

  abbrev Goes : ℕ → String → Type 0
  Goes o key =
      ((e : JournalEntry) × Replays db o key (host.request_hash payload) e
        × (call ≡ (ok (e, postings_of e.id db, true), db)))
      ⊎ ((entry_for_key o key db ≡ none)
          × (call ≡ post_new host principal payload key o entry_id race db))

  with_key-cases :
      (o : ℕ) (key : String)
      → Admitted o key
      → call ≡ with_key o key db
      → Raised db call ⊎ ((o : ℕ) × (key : String) × Admitted o key × Goes o key)
  with_key-cases o key admitted e =
      let lookup_key = existing_journal o key (host.request_hash payload) in
      let next = λ (existing : Option Posted).
        replay_or_post existing (post_new host principal payload key o entry_id race) in
      elim (existing_journal-cases o key (host.request_hash payload) db) [
        | inl (x, conflict) ↦ inl (x, e ∙ >>=-of_err lookup_key next db conflict)
        | inr (inl (old, replays, found)) ↦
            inr (o, key, admitted, inl (old, replays, e ∙ >>=-of_ok lookup_key next db found))
        | inr (inr (unused, none_found)) ↦
            inr (o, key, admitted, inr (unused, e ∙ >>=-of_ok lookup_key next db none_found))
      ]

  pub post_journal-cases : Raised db call ⊎ ((o : ℕ) × (key : String) × Admitted o key × Goes o key)
  unfolding post_journal
  post_journal-cases =
      let permit = require_finance_permission principal "finance.post" in
      elim (require_finance_permission-cases principal "finance.post" db) [
        | inr (x, denied) ↦ inl (x, >>=-of_err permit (λ u. start) db denied)
        | inl granted ↦
            let e0 = >>=-of_ok permit (λ u. start) db granted in
            elim (active_organization-cases principal db) [
              | inr (x, outside) ↦
                  inl (
                    x,
                    e0 ∙ >>=-of_err (active_organization principal) with_organization db outside,
                  )
              | inl (o, organization) ↦
                  let e1 =
                    e0
                    ∙ >>=-of_ok (active_organization principal) with_organization db organization in
                  elim (validate_idempotency_key-cases host raw_key db) [
                    | inr (x, bad) ↦ inl (
                      x,
                      e1 ∙ >>=-of_err (validate_idempotency_key host raw_key) (with_key o) db bad,
                    )
                    | inl (key, key_text) ↦
                        with_key-cases o key
                          (record {
                            permitted = granted;
                            organization = organization;
                            key_text = key_text;
                          })
                          (e1
                            ∙ >>=-of_ok (validate_idempotency_key host raw_key) (with_key o) db
                                key_text)
                  ]
            ]
      ]

-- Who is admitted does not depend on the rows.
permitted-at :
    (p : Principal) (permission : String) (db db' : LedgerDb)
    → require_finance_permission p permission db ≡ (ok tt, db)
    → require_finance_permission p permission db' ≡ (ok tt, db')
unfolding require_finance_permission
permitted-at p permission db db' h = ground arith

organization_of-at :
    (p : Principal) (active : Option ℕ) (o : ℕ) (db db' : LedgerDb)
    → organization_of p active db ≡ (ok o, db)
    → organization_of p active db' ≡ (ok o, db')
organization_of-at p none o db db' h = ground arith
organization_of-at p (some k) o db db' h = ground arith

organization-at :
    (p : Principal) (o : ℕ) (db db' : LedgerDb)
    → active_organization p db ≡ (ok o, db)
    → active_organization p db' ≡ (ok o, db')
unfolding active_organization
organization-at p o db db' h = organization_of-at p p.active_organization_id o db db' h

key_text-at :
    (host : Host) (raw_key key : String) (db db' : LedgerDb)
    → validate_idempotency_key host raw_key db ≡ (ok key, db)
    → validate_idempotency_key host raw_key db' ≡ (ok key, db')
unfolding validate_idempotency_key
key_text-at host raw_key key db db' h = ground arith

pub Admitted-at :
    (host : Host) (principal : Principal) (payload payload' : JournalEntryCreate) (raw_key : String)
    (entry_id entry_id' : ℕ) (race race' : Option LedgerDb) (db db' : LedgerDb) (o : ℕ)
    (key : String)
    → Admitted host principal payload raw_key entry_id race db o key
    → Admitted host principal payload' raw_key entry_id' race' db' o key
Admitted-at host principal payload payload' raw_key entry_id entry_id' race race' db db' o key h =
    record {
      permitted = permitted-at principal "finance.post" db db' h.permitted;
      organization = organization-at principal o db db' h.organization;
      key_text = key_text-at host raw_key key db db' h.key_text;
    }
