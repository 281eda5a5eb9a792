-- ===== src/Worker/Inbox/Stuck.antt =====
-- A message that makes `process_pending_docusign_event` of app/worker.py raise.
use moneybee_backend.Base.{
  ℕ, ◌≡◌, refl, String, true, false, none, some, equal, mem?, subst, sym, ap,
}
use moneybee_backend.Base.Action.{Result, ok, err, ◌>>=◌, >>=-of_err}
use moneybee_backend.Lifecycle.Status.{
  ContractStatus, ContractStatus-discrete, contract_transitions, FundingStatus, ApplicationStatus,
}
use moneybee_backend.Lifecycle.Db.{Application, Funding, Db, Problem, value_error, get_application}
use moneybee_backend.Lifecycle.Funding.{
  transition_funding, same_funding_status, may_move_funding, target_of, lifecycle_index,
}
use moneybee_backend.Lifecycle.Funding.Refusals.{transition_funding_off_lifecycle}
use moneybee_backend.Worker.Signing.{Pending, system_principal, or_rolled_back}
use moneybee_backend.Worker.Signing.Sends.{after_contract, contract_moves}
use moneybee_backend.Worker.Inbox.{
  InboxMessage, InboxDb, InboxHost, next_message, counted, end_with, in_inbox, at_inbox,
  contract_of_envelope, funding_of_contract, save_signed_at, processed_message, advance_found,
  after_contract_move, contract_tried, apply_status, read_message, process_found,
  process_pending_docusign_event, docusign_envelope_id, docusign_envelope_status,
  contract_status_of,
}

raises_on :
    {A B : Type 0} (m : InboxDb → Result Problem A × InboxDb)
    (f : A → InboxDb → Result Problem B × InboxDb) (s : InboxDb) (x : Problem)
    → (m s).0 ≡ err x
    → ((m >>= f) s).0 ≡ err x
raises_on m f s x e = ap (λ r. r.0) (>>=-of_err m f s (pair (m s) e))
  where
    pair :
        {A : Type 0} {x : Problem} (r : Result Problem A × InboxDb) → r.0 ≡ err x → r ≡ (err x, r.1)
    pair (a, t) e' = ap (λ b. (b, t)) e'

at_inbox_raises :
    {A : Type 0} (s : InboxDb) (r : Result Problem A × Db) (x : Problem)
    → r.0 ≡ err x
    → (at_inbox s r).0 ≡ err x
at_inbox_raises s (a, db) x e = e

rolled_back_raises :
    {A : Type 0} (s : InboxDb) (r : Result Problem A × InboxDb) (x : Problem)
    → r.0 ≡ err x
    → or_rolled_back s r ≡ (err x, s)
rolled_back_raises s (ok a, t) x e = cc
rolled_back_raises s (err y, t) x e = ap (λ (b : Result Problem _). (b, s)) e

sent_facts :
    (c : ContractStatus)
    → c ≡ ContractStatus.sent
    → (equal ContractStatus-discrete c ContractStatus.signed ≡ false)
      × (mem? ContractStatus-discrete ContractStatus.signed (contract_transitions c) ≡ true)
unfolding ContractStatus-discrete contract_transitions
sent_facts c e = rw e (refl, refl)

ready_facts :
    (f : FundingStatus)
    → f ≡ FundingStatus.conditions_satisfied
    → (same_funding_status f FundingStatus.conditions_satisfied ≡ true)
      × (may_move_funding f FundingStatus.contract_signed ≡ true)
unfolding same_funding_status may_move_funding
ready_facts f e = rw e (refl, refl)

signed_target : target_of FundingStatus.contract_signed ≡ some ApplicationStatus.contract_signed
unfolding target_of
signed_target = refl

signed_index : (j : ℕ) × (lifecycle_index ApplicationStatus.contract_signed ≡ some j)
unfolding lifecycle_index
signed_index = (_, refl)

-- A message says that a sent contract is completed, its funding has its conditions satisfied, and the
-- application stands outside the stages of the lifecycle, as a declined one does. If it is the next
-- message, a run raises an uncaught ValueError and leaves everything as it was, the message and its
-- attempts included, so that the same run would raise again.
pub process_pending_docusign_event_stuck :
    (h : InboxHost) (s : InboxDb) (m : InboxMessage) (envelope_id : String) (p : Pending)
    (f : Funding) (a : Application)
    → next_message h.host.now s ≡ some m
    → docusign_envelope_id m.payload ≡ some envelope_id
    → contract_status_of (docusign_envelope_status h m.payload) ≡ some ContractStatus.signed
    → contract_of_envelope envelope_id s ≡ some p
    → p.contract.status ≡ ContractStatus.sent
    → funding_of_contract p.contract s.db ≡ some f
    → f.status ≡ FundingStatus.conditions_satisfied
    → get_application f.application_id s.db ≡ some a
    → lifecycle_index a.status ≡ none
    → process_pending_docusign_event h s ≡ (err value_error, s)
unfolding process_pending_docusign_event read_message apply_status after_contract_move advance_found
process_pending_docusign_event_stuck h s m envelope_id p f a next named asked matched is_sent funded
      ready stored off =
    let signed = ContractStatus.signed in
    let m' = counted h.host.now m in
    let db1 = after_contract p.contract signed system_principal none s.db in
    let s2 = save_signed_at h.host.now p.delivery (record s { db = db1 }) in
    let facts = sent_facts p.contract.status is_sent in
    let step = contract_moves p.contract signed system_principal none s.db facts.0 facts.1 in
    let funding_facts = ready_facts f.status ready in
    let fails : (transition_funding f FundingStatus.contract_signed system_principal none db1).0
        ≡ err value_error =
      transition_funding_off_lifecycle f FundingStatus.contract_signed system_principal none db1 a
        ApplicationStatus.contract_signed signed_index.0 funding_facts.1 stored signed_target off
        signed_index.1 in
    let advanced : (advance_found m' (some f) s2).0 ≡ err value_error = rw funding_facts.0 (
      raises_on
        (in_inbox (transition_funding f FundingStatus.contract_signed system_principal none))
        (λ _. end_with (processed_message m')) s2 value_error
        (at_inbox_raises s2
          (transition_funding f FundingStatus.contract_signed system_principal none db1) value_error
          fails)) in
    let on_contract : (after_contract_move h m' signed p (record s { db = db1 })).0
        ≡ err value_error =
      subst (λ o. (advance_found m' o s2).0 ≡ err value_error) (sym funded) advanced in
    let tried : (apply_status h m' envelope_id signed (some p) s).0 ≡ err value_error =
      subst (λ r. (contract_tried h m' signed p (at_inbox s r)).0 ≡ err value_error) (sym step)
        on_contract in
    let found : (apply_status h m' envelope_id signed (contract_of_envelope envelope_id s) s).0
        ≡ err value_error =
      subst (λ o. (apply_status h m' envelope_id signed o s).0 ≡ err value_error) (sym matched)
        tried in
    let read : (read_message h m' (docusign_envelope_id m.payload)
          (contract_status_of (docusign_envelope_status h m.payload)) s).0
        ≡ err value_error =
      subst
        (λ o.
          (read_message h m' o (contract_status_of (docusign_envelope_status h m.payload)) s).0
          ≡ err value_error)
        (sym named)
        (subst (λ o. (read_message h m' (some envelope_id) o s).0 ≡ err value_error) (sym asked)
          found) in
    rolled_back_raises s (process_found h (next_message h.host.now s) s) value_error
      (subst (λ o. (process_found h o s).0 ≡ err value_error) (sym next) read)
