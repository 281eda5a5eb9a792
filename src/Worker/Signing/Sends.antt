-- ===== src/Worker/Signing/Sends.antt =====
-- What `send_pending_contract_envelope` of app/worker.py leaves behind.
use moneybee_backend.Base.{
  ℕ, ◌≡◌, ◌⊎◌, refl, arith, String, Bool, true, false, Option, none, some, List, [], ◌∷◌, All, put,
  row-put_self, key-row, equal, mem?, Bool-cases, inl, inr, subst, sym, ap, ◌∙◌,
}
use moneybee_backend.Base.Oldest.{Picks, oldest-Picks, All-Listed}
use moneybee_backend.Base.Text.{String-discrete}
use moneybee_backend.Base.Action.{pure, modify, ◌>>◌, Result, ok, err, ◌>>=◌, >>=-of_ok}
use moneybee_backend.Principal.{Principal}
use moneybee_backend.Lifecycle.Status.{
  ApplicationStatus, ContractStatus, ContractStatus-discrete, contract_transitions,
}
use moneybee_backend.Lifecycle.Db.{
  Application, Contract, Db, Problem, Service, get_application, save_contract, add_audit,
  contract_moved,
}
use moneybee_backend.Lifecycle.Application.{transition_application, same_status, may_move, moved}
use moneybee_backend.Lifecycle.Application.Traces.{
  after_move, same_status-eq, transition_application_moves,
}
use moneybee_backend.Lifecycle.Conditions.{transition_contract}
use moneybee_backend.Worker.Items.{is_null}
use moneybee_backend.Worker.Scans.{Reply, value, provider_error}
use moneybee_backend.Worker.Signing.{
  succeeded_delivery, ContractDelivery, SigningDb, EnvelopeReply, SigningHost, system_principal,
  contract_row, Pending, with_contract, contract_rows, is_draft, is_sendable, next_contract,
  leased_delivery, failed_delivery, is_stopped, is_signable, signer_email, raw_envelope_id,
  stripped, open_contract_exception, mark_sent, after_reply, at_session, in_lifecycle,
  SigningAction, finish_sent, to_sent, make_ready, ready_first, sent_delivery, save_delivery,
  to_signer, with_application, send_found, or_rolled_back, send_pending_contract_envelope,
}

pub draft_eq : (s : ContractStatus) → is_draft s ≡ true → s ≡ ContractStatus.draft
draft_eq ContractStatus.draft h = refl
draft_eq ContractStatus.sent h = cc
draft_eq ContractStatus.signed h = cc
draft_eq ContractStatus.declined h = cc
draft_eq ContractStatus.expired h = cc
draft_eq ContractStatus.voided h = cc
draft_eq (ContractStatus.other s) h = cc

abbrev pub contract_at : Contract → ContractStatus → Contract
contract_at c to = record c { status = to }

abbrev pub after_contract : Contract → ContractStatus → Principal → Option String → Db → Db
after_contract c to p reason db =
    add_audit
      (record {
        actor_id = p.subject;
        resource_id = c.id;
        details = contract_moved c.status to reason;
      })
      (save_contract (contract_at c to) db)

-- A move of the contract table is made.
pub contract_moves :
    (c : Contract) (to : ContractStatus) (p : Principal) (reason : Option String) (db : Db)
    → equal ContractStatus-discrete c.status to ≡ false
    → mem? ContractStatus-discrete to (contract_transitions c.status) ≡ true
    → transition_contract c to p reason db
      ≡ (ok (contract_at c to), after_contract c to p reason db)
unfolding transition_contract
contract_moves c to p reason db apart may = rw (apart, may) refl

draft_apart :
    (s to : ContractStatus)
    → s ≡ ContractStatus.draft
    → ((to ≡ ContractStatus.sent) ⊎ (to ≡ ContractStatus.voided))
    → equal ContractStatus-discrete s to ≡ false
unfolding ContractStatus-discrete
draft_apart s to draft (inl e) = rw (draft, e) refl
draft_apart s to draft (inr e) = rw (draft, e) refl

draft_may :
    (s to : ContractStatus)
    → s ≡ ContractStatus.draft
    → ((to ≡ ContractStatus.sent) ⊎ (to ≡ ContractStatus.voided))
    → mem? ContractStatus-discrete to (contract_transitions s) ≡ true
unfolding ContractStatus-discrete contract_transitions
draft_may s to draft (inl e) = rw (draft, e) refl
draft_may s to draft (inr e) = rw (draft, e) refl

draft_moves :
    (c : Contract) (to : ContractStatus) (p : Principal) (reason : Option String) (db : Db)
    → c.status ≡ ContractStatus.draft
    → ((to ≡ ContractStatus.sent) ⊎ (to ≡ ContractStatus.voided))
    → transition_contract c to p reason db
      ≡ (ok (contract_at c to), after_contract c to p reason db)
draft_moves c to p reason db draft goal =
    contract_moves c to p reason db (draft_apart c.status to draft goal)
      (draft_may c.status to draft goal)

complete_facts :
    (s : ApplicationStatus)
    → s ≡ ApplicationStatus.conditions_complete
    → (same_status s ApplicationStatus.contract_ready ≡ false)
      × (may_move s ApplicationStatus.contract_ready ≡ true)
unfolding same_status may_move
complete_facts s e = rw e (refl, refl)

ready_facts :
    (s : ApplicationStatus)
    → s ≡ ApplicationStatus.contract_ready
    → (same_status s ApplicationStatus.contract_sent ≡ false)
      × (may_move s ApplicationStatus.contract_sent ≡ true)
unfolding same_status may_move
ready_facts s e = rw e (refl, refl)

-- a lifecycle service that returns, and what follows it
lifecycle_ok :
    {A B : Type 0} (m : Service A) (f : A → SigningAction B) (s : SigningDb) {a : A} {db' : Db}
    → m s.db ≡ (ok a, db')
    → (in_lifecycle m >>= f) s ≡ f a (record s { db = db' })
lifecycle_ok m f s e = >>=-of_ok (in_lifecycle m) f s (ap (at_session s) e)

-- the contract was voided and no application was touched
abbrev pub Voids : Contract → Db → Db → Type 0
Voids c db db' =
    (db'.contracts
      ≡ put (λ (x : Contract). x.id) (contract_at c ContractStatus.voided) db.contracts)
    × (db'.applications ≡ db.applications)

-- the contract was sent and its application moved from a signable status to `contract_sent`
abbrev pub Delivers : Contract → Db → Db → Type 0
Delivers c db db' =
    (a a' : Application) × (get_application c.application_id db ≡ some a)
    × (is_signable a.status ≡ true)
    × (db'.contracts
        ≡ put (λ (x : Contract). x.id) (contract_at c ContractStatus.sent) db.contracts)
    × (get_application c.application_id db' ≡ some a')
    × (a'.status ≡ ApplicationStatus.contract_sent)

abbrev pub Sends : Db → Result Problem (Option ℕ) × SigningDb → Type 0
Sends db (err x, s') = ⊥
Sends db (ok none, s') = s'.db ≡ db
Sends db (ok (some k), s') =
    (c : Contract) × (c.id ≡ k)
    × (contract_row k db ≡ some c)
    × (is_draft c.status ≡ true)
    × (Voids c db s'.db ⊎ Delivers c db s'.db)

-- The report of the last failed attempt leaves the rows of the lifecycle.
open_contract_exception_db :
    (d : ContractDelivery) (s : SigningDb) → (open_contract_exception d s).db ≡ s.db
open_contract_exception_db d s = elim (Bool-cases (is_null d.state.terminal_at)) [
  | inl going ↦ rw going refl
  | inr over ↦ rw over refl
]

module _ (c : Contract) (db : Db) (stored : contract_row c.id db ≡ some c)
    (draft : is_draft c.status ≡ true) where
  is_at_draft : c.status ≡ ContractStatus.draft
  is_at_draft = draft_eq c.status draft

  after_sent : Db
  after_sent = after_contract c ContractStatus.sent system_principal none db

  module _ (a : Application) (found : get_application c.application_id db ≡ some a)
      (signable : is_signable a.status ≡ true) where
    at_id : a.id ≡ c.application_id
    at_id = key-row (λ (x : Application). x.id) c.application_id a db.applications found

    found_at : get_application a.id db ≡ some a
    found_at = subst (λ k. get_application k db ≡ some a) (sym at_id) found

    row_after :
        (b : Application) (d : Db)
        → b.id ≡ a.id
        → get_application a.id d ≡ some b
        → get_application c.application_id d ≡ some b
    row_after b d same h = subst (λ k. get_application k d ≡ some b) at_id h

    mark_sent-Sends :
        (d : ContractDelivery) (envelope_id : String) (s : SigningDb)
        → s.db ≡ db
        → Sends db (mark_sent c d a envelope_id s)
    unfolding mark_sent
    mark_sent-Sends d envelope_id s same_db =
        let key : Application → ℕ = λ x. x.id in
        let ready = ApplicationStatus.contract_ready in
        let sent = ApplicationStatus.contract_sent in
        let why : Option String = some "E-sign envelope prepared for delivery" in
        let done : Option String = some "E-sign envelope sent" in
        let contract_step =
          draft_moves c ContractStatus.sent system_principal none db is_at_draft (inl refl) in
        let d1 = after_contract c ContractStatus.sent system_principal none db in
        let d' = sent_delivery envelope_id d in
        let s1 : SigningDb = save_delivery d' (record s { db = db }) in
        elim (Bool-cases (same_status a.status ApplicationStatus.conditions_complete)) [
          | inl complete ↦
              let at_complete =
                same_status-eq a.status ApplicationStatus.conditions_complete complete in
              let facts = complete_facts a.status at_complete in
              let first =
                transition_application_moves a ready system_principal why d1 facts.0 facts.1 in
              let d2 = after_move a ready system_principal why d1 in
              let facts' = ready_facts ready refl in
              let second =
                transition_application_moves (moved a ready) sent system_principal done d2 facts'.0
                  facts'.1 in
              let ready_step : ready_first a d1 ≡ (ok (moved a ready), d2) = rw complete first in
              let row1 = row-put_self key (moved a ready) a db.applications found_at in
              let row2 =
                row-put_self key (moved (moved a ready) sent) (moved a ready)
                  (put key (moved a ready) db.applications) row1 in
              let run =
                lifecycle_ok (transition_contract c ContractStatus.sent system_principal none)
                  (λ _. make_ready c d' a) s1 contract_step
                ∙ lifecycle_ok (ready_first a) (to_sent c d') (record s1 { db = d1 }) ready_step
                ∙ lifecycle_ok (transition_application (moved a ready) sent system_principal done)
                    (λ _. finish_sent c d') (record s1 { db = d2 }) second in
              rw same_db (
                subst (Sends db) (sym run) (
                  c,
                  refl,
                  stored,
                  draft,
                  inr (
                    a,
                    moved (moved a ready) sent,
                    found,
                    signable,
                    refl,
                    row_after (moved (moved a ready) sent)
                        (after_move (moved a ready) sent system_principal done d2) refl row2,
                    refl,
                  ),
                ))
          | inr not_complete ↦
              let at_ready = same_status-eq a.status ready (ground arith) in
              let facts = ready_facts a.status at_ready in
              let step =
                transition_application_moves a sent system_principal done d1 facts.0 facts.1 in
              let ready_step : ready_first a d1 ≡ (ok a, d1) = rw not_complete refl in
              let row1 = row-put_self key (moved a sent) a db.applications found_at in
              let run =
                lifecycle_ok (transition_contract c ContractStatus.sent system_principal none)
                  (λ _. make_ready c d' a) s1 contract_step
                ∙ lifecycle_ok (ready_first a) (to_sent c d') (record s1 { db = d1 }) ready_step
                ∙ lifecycle_ok (transition_application a sent system_principal done)
                    (λ _. finish_sent c d') (record s1 { db = d1 }) step in
              rw same_db (
                subst (Sends db) (sym run) (
                  c,
                  refl,
                  stored,
                  draft,
                  inr (
                    a,
                    moved a sent,
                    found,
                    signable,
                    refl,
                    row_after (moved a sent) (after_move a sent system_principal done d1) refl row1,
                    refl,
                  ),
                ))
        ]

  after_voided : Option String → Db
  after_voided reason = after_contract c ContractStatus.voided system_principal reason db

  voids : (reason : Option String) → Voids c db (after_voided reason)
  unfolding after_voided
  voids reason = (refl, refl)

  void_step :
      (reason : Option String)
      → transition_contract c ContractStatus.voided system_principal reason db
        ≡ (ok (contract_at c ContractStatus.voided), after_voided reason)
  unfolding after_voided
  void_step reason =
      draft_moves c ContractStatus.voided system_principal reason db is_at_draft (inr refl)

  to_signer-Sends :
      (h : SigningHost) (d : ContractDelivery) (a : Application) (email : Option String)
      (s : SigningDb)
      → get_application c.application_id db ≡ some a
      → is_signable a.status ≡ true
      → s.db ≡ db
      → Sends db (to_signer h c d a email s)
  to_signer-Sends h d a none s found signable same_db =
      let reason : Option String = some "No owner with an email address to sign as" in
      let s1 : SigningDb = record s { db = db } in
      let run =
        lifecycle_ok (transition_contract c ContractStatus.voided system_principal reason)
          (λ _. pure (some c.id)) s1 (void_step reason) in
      rw same_db (subst (Sends db) (sym run) (c, refl, stored, draft, inl (voids reason)))
  to_signer-Sends h d a (some email) s found signable same_db = reply (h.send_envelope c.id email)
    where
      reply : (r : Reply EnvelopeReply) → Sends db (after_reply h c d a r s)
      reply (provider_error error) =
          open_contract_exception_db (failed_delivery h.host error d)
            (save_delivery (failed_delivery h.host error d) s)
          ∙ same_db
      reply (value v) =
          elim (Bool-cases (equal String-discrete (stripped h (raw_envelope_id v)) "")) [
            | inl empty ↦ rw empty same_db
            | inr named ↦
                rw named
                  (mark_sent-Sends a found signable d (stripped h (raw_envelope_id v)) s same_db)
          ]

  with_application-Sends :
      (h : SigningHost) (d : ContractDelivery) (found : Option Application) (s : SigningDb)
      → get_application c.application_id db ≡ found
      → s.db ≡ db
      → Sends db (with_application h c d found s)
  with_application-Sends h d none s e same_db = same_db
  with_application-Sends h d (some a) s e same_db = elim (Bool-cases (is_stopped a.status)) [
    | inl stopped ↦
        let reason : Option String = some (h.terminal_reason a.status) in
        let s1 : SigningDb = record s { db = db } in
        let after : SigningDb = record s { db = after_voided reason } in
        let step =
          lifecycle_ok (transition_contract c ContractStatus.voided system_principal reason)
            (λ _. modify (save_delivery (succeeded_delivery d))) s1 (void_step reason) in
        let run =
          >>=-of_ok
            (in_lifecycle (transition_contract c ContractStatus.voided system_principal reason)
              >> modify (save_delivery (succeeded_delivery d)))
            (λ _. pure (some c.id)) s1 step in
        rw (stopped, same_db)
          (subst (Sends db) (sym run) (c, refl, stored, draft, inl (voids reason)))
    | inr going ↦ elim (Bool-cases (is_signable a.status)) [
      | inl signable ↦
          rw (going, signable)
            (to_signer-Sends h d a (signer_email c.application_id s) s e signable same_db)
      | inr early ↦ rw (going, early) same_db
    ]
  ]

abbrev pub Stored : Db → List Pending → Type 0
Stored db = All (λ (p : Pending). contract_row p.contract.id db ≡ some p.contract)

with_contract-Stored :
    (db : Db) (d : ContractDelivery) (rest : List Pending) (o : Option Contract)
    → contract_row d.contract_id db ≡ o
    → Stored db rest
    → Stored db (with_contract d o rest)
with_contract-Stored db d rest none e h = h
with_contract-Stored db d rest (some c) e h =
    let same = key-row (λ (x : Contract). x.id) d.contract_id c db.contracts e in
    (subst (λ k. contract_row k db ≡ some c) (sym same) e, h)

-- The rows that the query reads are stored contracts.
pub contract_rows-Stored : (db : Db) (ds : List ContractDelivery) → Stored db (contract_rows db ds)
contract_rows-Stored db [] = tt
contract_rows-Stored db (d ∷ ds) =
    with_contract-Stored db d (contract_rows db ds) (contract_row d.contract_id db) refl
      (contract_rows-Stored db ds)

send_found-Sends :
    (now : ℕ) (h : SigningHost) (s : SigningDb) (o : Option Pending)
    → Picks
        (λ (p : Pending). p.delivery.created_at)
        (is_sendable now)
        (contract_rows s.db s.deliveries)
        o
    → Sends s.db (send_found h o s)
send_found-Sends now h s none picks = refl
send_found-Sends now h s (some p) (passes, listed, _) =
    with_application-Sends p.contract s.db
      (All-Listed (λ (p : Pending). contract_row p.contract.id s.db ≡ some p.contract) p
        (contract_rows s.db s.deliveries) listed (contract_rows-Stored s.db s.deliveries))
      (ground arith) h (leased_delivery h.host p.delivery)
      (get_application p.contract.application_id s.db)
      (save_delivery (leased_delivery h.host p.delivery) s) refl refl

rolled_back-Sends :
    (db : Db) (s : SigningDb) (r : Result Problem (Option ℕ) × SigningDb)
    → Sends db r
    → Sends db (or_rolled_back s r)
rolled_back-Sends db s (ok none, s') h = h
rolled_back-Sends db s (ok (some k), s') h = h
rolled_back-Sends db s (err x, s') h = elim h [ ]

-- A run never raises. If it returns no id, the rows of the lifecycle are as before. If it returns an
-- id, it is that of a stored draft contract, and either this contract is voided and no application
-- changed, or it is sent and its application went from conditions_complete or contract_ready to
-- contract_sent.
pub send_pending_contract_envelope-Sends :
    (enabled : Bool) (h : SigningHost) (s : SigningDb)
    → Sends s.db (send_pending_contract_envelope enabled h s)
unfolding send_pending_contract_envelope next_contract
send_pending_contract_envelope-Sends false h s = refl
send_pending_contract_envelope-Sends true h s = rolled_back-Sends s.db s _ (
    send_found-Sends h.host.now h s _ (
      oldest-Picks (λ (p : Pending). p.delivery.created_at) (is_sendable h.host.now)
        (contract_rows s.db s.deliveries)))
