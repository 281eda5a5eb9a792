-- ===== src/Worker/Signing.antt =====
-- Contracts and the e-sign provider in the worker: `send_pending_contract_envelope` of
-- app/worker.py, on the session of the lifecycle services. The columns of a contract that those
-- services leave alone stand in a row of their own.
pub mod Sends
use moneybee_backend.Base.{
  ℕ, ◌+◌, String, Bool, true, false, not, ◌&&◌, ◌||◌, Option, none, some, List, [], ◌∷◌, ◌++◌, put,
  row, find, equal, mem?, ltb, leb, ◌==◌, filter, if◌then◌else◌,
}
use moneybee_backend.Base.Oldest.{oldest}
use moneybee_backend.Base.Text.{String-discrete}
use moneybee_backend.Base.Action.{Action, Result, ok, err, pure, raise, ◌>>=◌, ◌>>◌, gets, modify}
use moneybee_backend.Principal.{Principal}
use moneybee_backend.Lifecycle.Status.{
  ApplicationStatus, ApplicationStatus-discrete, ContractStatus,
}
use moneybee_backend.Lifecycle.Db.{Application, Contract, Db, Problem, Service, get_application}
use moneybee_backend.Lifecycle.Application.{transition_application, same_status}
use moneybee_backend.Lifecycle.Conditions.{transition_contract}
use moneybee_backend.Worker.Items.{
  ProviderState, WorkerHost, is_null, is_ready, lease_provider_item, provider_failed,
  provider_succeeded,
}
use moneybee_backend.Worker.Scans.{Reply, value, provider_error}

-- the columns `created_at`, `provider`, `external_envelope_id`, `signed_at` and `provider_…` of a
-- contract
pub record ContractDelivery : Type 0 where
  pub contract_id : ℕ
  pub created_at : ℕ
  pub provider : Option String
  pub external_envelope_id : Option String
  pub signed_at : Option ℕ
  pub state : ProviderState

pub record Owner : Type 0 where
  pub application_id : ℕ
  pub ownership_percent : ℕ
  pub created_at : ℕ
  pub email : Option String

pub record SigningDb : Type 0 where
  pub db : Db
  pub deliveries : List ContractDelivery
  pub owners : List Owner
  pub exhausted : List ℕ

-- the two keys of the answer to `send_envelope` that are read
pub record EnvelopeReply : Type 0 where
  pub envelope_id_camel : Option String
  pub envelope_id : Option String

-- What the sending takes from outside: `str.strip`, the two f-strings with the application's status,
-- and the adapter's answer for a contract and a signer's address.
pub record SigningHost : Type 0 where
  pub host : WorkerHost
  pub strip : String → String
  pub terminal_reason : ApplicationStatus → String
  pub early_error : ApplicationStatus → String
  pub send_envelope : ℕ → String → Reply EnvelopeReply

abbrev pub SigningAction : Type 0 → Type 0
SigningAction A = Action SigningDb Problem A

abbrev pub system_principal : Principal
system_principal = record {
  user_id = 0;
  issuer = "system";
  subject = "worker:contract-engine";
  organization_ids = [];
  active_organization_id = none;
  roles = [];
  permissions = "*" ∷ [];
  membership_types = [];
  borrower_id = none;
  lender_id = none;
  is_active = true;
}

abbrev pub save_delivery : ContractDelivery → SigningDb → SigningDb
save_delivery d s = record s {
  deliveries = put (λ (x : ContractDelivery). x.contract_id) d s.deliveries;
}

abbrev pub at_session :
    {A : Type 0} → SigningDb → Result Problem A × Db → Result Problem A × SigningDb
at_session s (r, db) = (r, record s { db = db })

-- a lifecycle service in the worker's session
abbrev pub in_lifecycle : {A : Type 0} → Service A → SigningAction A
in_lifecycle m s = at_session s (m s.db)

abbrev pub contract_row : ℕ → Db → Option Contract
contract_row k db = row (λ (c : Contract). c.id) k db.contracts

-- the rows of the table of contracts
pub record Pending : Type 0 where
  pub contract : Contract
  pub delivery : ContractDelivery

abbrev pub with_contract : ContractDelivery → Option Contract → List Pending → List Pending
with_contract d none rest = rest
with_contract d (some c) rest = record { contract = c; delivery = d } ∷ rest

abbrev pub contract_rows : Db → List ContractDelivery → List Pending
contract_rows db [] = []
contract_rows db (d ∷ ds) = with_contract d (contract_row d.contract_id db) (contract_rows db ds)

abbrev pub is_draft : ContractStatus → Bool
is_draft ContractStatus.draft = true
is_draft _ = false

-- the condition of the query; no row is locked by another transaction
abbrev pub is_sendable : ℕ → Pending → Bool
is_sendable now p = is_draft p.contract.status && is_ready now p.delivery.state

unfoldable pub next_contract : ℕ → SigningDb → Option Pending
next_contract now s =
    oldest (λ (p : Pending). p.delivery.created_at) (is_sendable now)
      (contract_rows s.db s.deliveries)

abbrev pub leased_delivery : WorkerHost → ContractDelivery → ContractDelivery
leased_delivery host d = record d { state = lease_provider_item host d.state }

abbrev pub failed_delivery : WorkerHost → String → ContractDelivery → ContractDelivery
failed_delivery host error d = record d { state = provider_failed host d.contract_id error d.state }

abbrev pub succeeded_delivery : ContractDelivery → ContractDelivery
succeeded_delivery d = record d { state = provider_succeeded d.state }

-- `_provider_failed`, and nothing was sent
abbrev pub give_up : WorkerHost → String → ContractDelivery → SigningAction (Option ℕ)
give_up host error d = modify (save_delivery (failed_delivery host error d)) >> pure none

abbrev pub is_stopped : ApplicationStatus → Bool
is_stopped status =
    same_status status ApplicationStatus.declined
    || same_status status ApplicationStatus.cancelled
    || same_status status ApplicationStatus.expired
    || same_status status ApplicationStatus.withdrawn

abbrev pub is_signable : ApplicationStatus → Bool
is_signable status =
    same_status status ApplicationStatus.conditions_complete
    || same_status status ApplicationStatus.contract_ready

-- `Owner.ownership_percent.desc(), Owner.created_at`
abbrev pub comes_first : Owner → Owner → Bool
comes_first a b =
    ltb b.ownership_percent a.ownership_percent
    || (a.ownership_percent == b.ownership_percent && leb a.created_at b.created_at)

abbrev pub first_owner : Owner → Option Owner → Owner
first_owner o none = o
first_owner o (some p) = if comes_first o p then o else p

abbrev pub best_owner : List Owner → Option Owner
best_owner [] = none
best_owner (o ∷ os) = some (first_owner o (best_owner os))

abbrev pub address_of : Option String → Option String
address_of none = none
address_of (some email) = if equal String-discrete email "" then none else some email

-- the address of the owner with the largest share, if it has one
abbrev pub owner_email : Option Owner → Option String
owner_email none = none
owner_email (some o) = address_of o.email

abbrev pub signer_email : ℕ → SigningDb → Option String
signer_email application_id s =
    owner_email (best_owner (filter (λ (o : Owner). o.application_id == application_id) s.owners))

-- `result.get("envelopeId") or result.get("envelope_id")`, stripped; "" where there is none
abbrev pub raw_envelope_id : EnvelopeReply → Option String
raw_envelope_id r = elim (address_of r.envelope_id_camel) [ none ↦ r.envelope_id | some e ↦ some e ]

abbrev pub stripped : SigningHost → Option String → String
stripped h none = ""
stripped h (some e) = h.strip e

abbrev pub open_contract_exception : ContractDelivery → SigningDb → SigningDb
open_contract_exception d s =
    if is_null d.state.terminal_at
    then s
    else record s { exhausted = s.exhausted ++ d.contract_id ∷ [] }

-- the moves of the application after the envelope was sent
abbrev pub ready_first : Application → Service Application
ready_first a =
    if same_status a.status ApplicationStatus.conditions_complete
    then transition_application a ApplicationStatus.contract_ready system_principal
        (some "E-sign envelope prepared for delivery")
    else pure a

abbrev pub sent_delivery : String → ContractDelivery → ContractDelivery
sent_delivery envelope_id d = record d {
  provider = some "docusign";
  external_envelope_id = some envelope_id;
}

-- the steps after the contract's own move, the last one first
abbrev pub finish_sent : Contract → ContractDelivery → SigningAction (Option ℕ)
finish_sent contract d = modify (save_delivery (succeeded_delivery d)) >> pure (some contract.id)

abbrev pub to_sent : Contract → ContractDelivery → Application → SigningAction (Option ℕ)
to_sent contract d ready =
    in_lifecycle (
      transition_application ready ApplicationStatus.contract_sent system_principal
        (some "E-sign envelope sent"))
    >>= λ _. finish_sent contract d

abbrev pub make_ready : Contract → ContractDelivery → Application → SigningAction (Option ℕ)
make_ready contract d a = in_lifecycle (ready_first a) >>= to_sent contract d

abbrev pub move_contract : Contract → ContractDelivery → Application → SigningAction (Option ℕ)
move_contract contract d a =
    in_lifecycle (transition_contract contract ContractStatus.sent system_principal none) >>= λ _.
    make_ready contract d a

unfoldable pub mark_sent :
    Contract → ContractDelivery → Application → String → SigningAction (Option ℕ)
mark_sent contract d a envelope_id =
    modify (save_delivery (sent_delivery envelope_id d))
    >> move_contract contract (sent_delivery envelope_id d) a

abbrev pub after_reply :
    SigningHost
    → Contract
    → ContractDelivery
    → Application
    → Reply EnvelopeReply
    → SigningAction (Option ℕ)
after_reply h contract d a (provider_error error) =
    modify (save_delivery (failed_delivery h.host error d))
    >> modify (open_contract_exception (failed_delivery h.host error d))
    >> pure none
after_reply h contract d a (value reply) =
    let envelope_id = stripped h (raw_envelope_id reply) in
    if equal String-discrete envelope_id ""
    then give_up h.host "docusign: provider response omitted envelope identifier" d
    else mark_sent contract d a envelope_id

abbrev pub to_signer :
    SigningHost
    → Contract
    → ContractDelivery
    → Application
    → Option String
    → SigningAction (Option ℕ)
to_signer h contract d a none =
    in_lifecycle (
      transition_contract contract ContractStatus.voided system_principal
        (some "No owner with an email address to sign as"))
    >> pure (some contract.id)
to_signer h contract d a (some email) =
    after_reply h contract d a (h.send_envelope contract.id email)

abbrev pub with_application :
    SigningHost → Contract → ContractDelivery → Option Application → SigningAction (Option ℕ)
with_application h contract d none = give_up h.host "moneybee: contract application is missing" d
with_application h contract d (some a) =
    if is_stopped a.status
    then in_lifecycle (
        transition_contract contract ContractStatus.voided system_principal
          (some (h.terminal_reason a.status)))
      >> modify (save_delivery (succeeded_delivery d))
      >> pure (some contract.id)
    else if is_signable a.status
    then gets (signer_email contract.application_id) >>= to_signer h contract d a
    else give_up h.host (h.early_error a.status) d

abbrev pub send_found : SigningHost → Option Pending → SigningAction (Option ℕ)
send_found h none = pure none
send_found h (some p) =
    modify (save_delivery (leased_delivery h.host p.delivery))
    >> gets (λ s. get_application p.contract.application_id s.db)
    >>= with_application h p.contract (leased_delivery h.host p.delivery)

-- `db.begin()`: an exception undoes what the block did.
abbrev pub or_rolled_back : {S A : Type 0} → S → Result Problem A × S → Result Problem A × S
or_rolled_back s (ok a, s') = (ok a, s')
or_rolled_back s (err x, s') = (err x, s)

abbrev pub in_transaction : {S A : Type 0} → Action S Problem A → Action S Problem A
in_transaction m s = or_rolled_back s (m s)

-- `enabled` is `esign_live_send_enabled()`.
unfoldable pub send_pending_contract_envelope : Bool → SigningHost → SigningAction (Option ℕ)
send_pending_contract_envelope enabled h =
    if enabled then in_transaction (gets (next_contract h.host.now) >>= send_found h) else pure none
