-- ===== src/Worker/Inbox.antt =====
-- Messages of the e-sign provider in the worker: `process_pending_docusign_event`,
-- `_docusign_envelope_id` and `_docusign_envelope_status` of app/worker.py, on the session of the
-- lifecycle services.
pub mod Applied
pub mod Stuck
mod Tests
use moneybee_backend.Base.{
  ℕ, ◌+◌, String, Bool, true, false, not, ◌&&◌, Option, none, some, List, put, find, equal, leb,
  ◌==◌, if◌then◌else◌,
}
use moneybee_backend.Base.Oldest.{oldest}
use moneybee_backend.Base.Text.{String-discrete}
use moneybee_backend.Base.Action.{Action, Result, ok, err, pure, ◌>>=◌, ◌>>◌, gets, modify}
use moneybee_backend.Lifecycle.Status.{ContractStatus, FundingStatus}
use moneybee_backend.Lifecycle.Db.{Contract, Funding, Db, Problem, Service}
use moneybee_backend.Lifecycle.Funding.{transition_funding, same_funding_status}
use moneybee_backend.Lifecycle.Conditions.{transition_contract}
use moneybee_backend.Worker.Outbox.{is_due}
use moneybee_backend.Worker.Items.{WorkerHost, provider_retry_delay_seconds}
use moneybee_backend.Worker.Signing.{
  ContractDelivery, Pending, contract_rows, address_of, system_principal, in_transaction,
}

-- the strings that `IntegrationInboxMessage.status` takes
pub data InboxStatus : Type 0 where
  waiting_for_worker not_recognized given_up processed : InboxStatus
  other : String → InboxStatus

-- the keys of a payload that are read: each a text, or not there
pub record EnvelopePayload : Type 0 where
  pub envelope_id_camel : Option String
  pub envelope_id : Option String
  pub data_envelope_id : Option String
  pub status : Option String
  pub summary_status : Option String
  pub event : Option String

pub record InboxMessage : Type 0 where
  pub id : ℕ
  pub created_at : ℕ
  pub provider : String
  pub payload : EnvelopePayload
  pub status : InboxStatus
  pub attempts : ℕ
  pub processed_at : Option ℕ
  pub last_error : Option String
  pub next_attempt_at : Option ℕ

pub record InboxDb : Type 0 where
  pub db : Db
  pub deliveries : List ContractDelivery
  pub messages : List InboxMessage

-- What the processing takes from outside: `str.lower`, `str.removeprefix("envelope-")`, the f-string
-- with the envelope, and the text of an exception, cut at 1000 characters.
pub record InboxHost : Type 0 where
  pub host : WorkerHost
  pub lower : String → String
  pub without_prefix : String → String
  pub no_contract : String → String
  pub problem_text : Problem → String

abbrev pub InboxAction : Type 0 → Type 0
InboxAction A = Action InboxDb Problem A

-- `a or b`
abbrev pub or_else : Option String → Option String → Option String
or_else a b = elim (address_of a) [ none ↦ b | some x ↦ some x ]

-- the envelope's id, where it is not empty
abbrev pub docusign_envelope_id : EnvelopePayload → Option String
docusign_envelope_id p =
    address_of (or_else p.envelope_id_camel (or_else p.envelope_id p.data_envelope_id))

abbrev pub normalized_status : InboxHost → Option String → Option String
normalized_status h none = none
normalized_status h (some status) = some (h.without_prefix (h.lower status))

abbrev pub docusign_envelope_status : InboxHost → EnvelopePayload → Option String
docusign_envelope_status h p =
    normalized_status h (address_of (or_else p.status (or_else p.summary_status p.event)))

-- `DOCUSIGN_STATUS_TO_CONTRACT_STATUS.get(status or "")`
abbrev pub contract_status_of : Option String → Option ContractStatus
contract_status_of none = none
contract_status_of (some status) =
    if equal String-discrete status "completed"
    then some ContractStatus.signed
    else if equal String-discrete status "declined"
    then some ContractStatus.declined
    else if equal String-discrete status "voided"
    then some ContractStatus.voided
    else none

abbrev pub is_waiting_message : InboxStatus → Bool
is_waiting_message waiting_for_worker = true
is_waiting_message not_recognized = false
is_waiting_message given_up = false
is_waiting_message processed = false
is_waiting_message (other _) = false

-- the condition of the query; no row is locked by another transaction
abbrev pub is_due_message : ℕ → InboxMessage → Bool
is_due_message now m =
    equal String-discrete m.provider "docusign"
    && is_waiting_message m.status
    && is_due now m.next_attempt_at

unfoldable pub next_message : ℕ → InboxDb → Option InboxMessage
next_message now s = oldest (λ (m : InboxMessage). m.created_at) (is_due_message now) s.messages

abbrev pub save_message : InboxMessage → InboxDb → InboxDb
save_message m s = record s { messages = put (λ (x : InboxMessage). x.id) m s.messages }

abbrev pub counted : ℕ → InboxMessage → InboxMessage
counted now m = record m { attempts = m.attempts + 1; processed_at = some now }

abbrev pub unrecognized : InboxMessage → InboxMessage
unrecognized m = record m {
  status = not_recognized;
  last_error = some "Unrecognized envelope id or status in payload";
}

-- no contract has the envelope: the last attempt, or another one later
abbrev pub unmatched : InboxHost → String → InboxMessage → InboxMessage
unmatched h envelope_id m =
    if leb 8 m.attempts
    then record m {
      status = given_up;
      next_attempt_at = none;
      last_error = some (h.no_contract envelope_id);
    }
    else record m {
      status = waiting_for_worker;
      next_attempt_at =
          some (h.host.now + provider_retry_delay_seconds h.host.digest m.id m.attempts);
      processed_at = none;
      last_error = some (h.no_contract envelope_id);
    }

abbrev pub refused_message : InboxHost → Problem → InboxMessage → InboxMessage
refused_message h problem m = record m {
  status = given_up;
  last_error = some (h.problem_text problem);
}

abbrev pub end_with : InboxMessage → InboxAction (Option ℕ)
end_with m = modify (save_message m) >> pure (some m.id)

abbrev pub at_inbox : {A : Type 0} → InboxDb → Result Problem A × Db → Result Problem A × InboxDb
at_inbox s (r, db) = (r, record s { db = db })

-- a lifecycle service in the worker's session
abbrev pub in_inbox : {A : Type 0} → Service A → InboxAction A
in_inbox m s = at_inbox s (m s.db)

abbrev pub has_envelope : String → Option String → Bool
has_envelope envelope_id none = false
has_envelope envelope_id (some e) = equal String-discrete e envelope_id

abbrev pub contract_of_envelope : String → InboxDb → Option Pending
contract_of_envelope envelope_id s =
    find (λ (p : Pending). has_envelope envelope_id p.delivery.external_envelope_id)
      (contract_rows s.db s.deliveries)

abbrev pub funding_of_contract : Contract → Db → Option Funding
funding_of_contract c db =
    find (λ (f : Funding). f.application_id == c.application_id && f.offer_id == c.offer_id)
      db.fundings

abbrev pub save_signed_at : ℕ → ContractDelivery → InboxDb → InboxDb
save_signed_at now d s = record s {
  deliveries =
      put (λ (x : ContractDelivery). x.contract_id) (record d { signed_at = some now })
        s.deliveries;
}

abbrev pub processed_message : InboxMessage → InboxMessage
processed_message m = record m { status = processed }

unfoldable pub advance_found : InboxMessage → Option Funding → InboxAction (Option ℕ)
advance_found m none = end_with (processed_message m)
advance_found m (some f) =
    if same_funding_status f.status FundingStatus.conditions_satisfied
    then (in_inbox (transition_funding f FundingStatus.contract_signed system_principal none)
        >>= λ _. end_with (processed_message m))
    else end_with (processed_message m)

abbrev pub is_signed : ContractStatus → Bool
is_signed ContractStatus.signed = true
is_signed _ = false

-- the part after the contract's move
unfoldable pub after_contract_move :
    InboxHost → InboxMessage → ContractStatus → Pending → InboxAction (Option ℕ)
after_contract_move h m to p =
    if is_signed to
    then modify (save_signed_at h.host.now p.delivery)
      >> gets (λ s. funding_of_contract p.contract s.db)
      >>= advance_found m
    else end_with (processed_message m)

-- the `try` statement round the contract's move, and what follows
abbrev pub contract_tried :
    InboxHost
    → InboxMessage
    → ContractStatus
    → Pending
    → Result Problem Contract × InboxDb
    → Result Problem (Option ℕ) × InboxDb
contract_tried h m to p (err x, s) = end_with (refused_message h x m) s
contract_tried h m to p (ok _, s) = after_contract_move h m to p s

unfoldable pub apply_status :
    InboxHost → InboxMessage → String → ContractStatus → Option Pending → InboxAction (Option ℕ)
apply_status h m envelope_id to none s = end_with (unmatched h envelope_id m) s
apply_status h m envelope_id to (some p) s =
    contract_tried h m to p (in_inbox (transition_contract p.contract to system_principal none) s)

unfoldable pub read_message :
    InboxHost → InboxMessage → Option String → Option ContractStatus → InboxAction (Option ℕ)
read_message h m none to = end_with (unrecognized m)
read_message h m (some envelope_id) none = end_with (unrecognized m)
read_message h m (some envelope_id) (some to) =
    gets (contract_of_envelope envelope_id) >>= apply_status h m envelope_id to

abbrev pub process_found : InboxHost → Option InboxMessage → InboxAction (Option ℕ)
process_found h none = pure none
process_found h (some m) =
    read_message h (counted h.host.now m) (docusign_envelope_id m.payload)
      (contract_status_of (docusign_envelope_status h m.payload))

unfoldable pub process_pending_docusign_event : InboxHost → InboxAction (Option ℕ)
process_pending_docusign_event h =
    in_transaction (gets (next_message h.host.now) >>= process_found h)
