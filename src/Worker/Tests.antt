-- ===== src/Worker/Tests.antt =====
-- Runs of the worker, and the theorems at concrete inputs.
use moneybee_backend.Base.{
  ◌≡◌, refl, arith, String, true, none, some, List, [], ◌∷◌, ◌⊎◌, ◌+◌, ◌*◌, ◌≤◌, length, ltb,
  IsKeyed,
}
use moneybee_backend.Base.Oldest.{oldest}
use moneybee_backend.Base.Action.{ok}
use moneybee_backend.Lifecycle.Status.{ApplicationStatus, ContractStatus}
use moneybee_backend.Lifecycle.Db.{Application, Contract}
use moneybee_backend.Lifecycle.Application.{same_status, may_move, transition_application}
use moneybee_backend.Lifecycle.Conditions.{transition_contract}
use moneybee_backend.Worker.Scans.{
  DocumentStatus, Document, ScanDb, ScanHost, value, scan_leased, scan_pending_document,
}
use moneybee_backend.Worker.Scans.Outcomes.{Passed, scan_pending_document_clean, is_clean_status}
use moneybee_backend.Worker.Signing.{
  SigningDb, SigningHost, mark_sent, next_contract, send_pending_contract_envelope,
}
use moneybee_backend.Worker.Signing.Sends.{Sends, send_pending_contract_envelope-Sends}
use moneybee_backend.Worker.Outbox.{
  event_row, claimable, OutboxStatus, OutboxEvent, OutboxDb, Turn, published, failed, not_ready,
  claim,
}
use moneybee_backend.Worker.Outbox.Claims.{Claims, claim-Claims}
use moneybee_backend.Worker.Outbox.Rounds.{
  turns, potential, HasIds, turns-potential, turns-Drains, Drains,
}
use moneybee_backend.Worker.Outbox.Leases.{Step, claims, delivers, requeues, run, run-leased}
use moneybee_backend.Worker.Items.{
  ProviderState, WorkerHost, provider_retry_delay_seconds, base_delay, is_null, is_ready,
  provider_succeeded, lease_provider_item,
}
use moneybee_backend.Worker.Items.Delays.{
  provider_retry_delay_seconds-bounds, failures, failures-terminal,
}

abbrev waiting : OutboxEvent
waiting = record {
  id = 1;
  aggregate_id = 7;
  is_public = true;
  correlation_id = none;
  created_at = 20;
  status = OutboxStatus.pending;
  attempt_count = 0;
  lease_owner = none;
  lease_expires_at = none;
  next_attempt_at = none;
  first_attempt_at = none;
  last_attempt_at = none;
  delivered_at = none;
  provider = none;
  destination = none;
  last_http_status = none;
  last_error_code = none;
  last_error = none;
}

abbrev failing : OutboxEvent
failing = record waiting {
  id = 2;
  created_at = 10;
  status = OutboxStatus.retry;
  attempt_count = 7;
  next_attempt_at = some 90;
}

abbrev outbox : OutboxDb
outbox = record {
  events = waiting ∷ failing ∷ [];
  integration_events = [];
  exhausted = [];
  audit = [];
}

outbox-HasIds : HasIds outbox
outbox-HasIds k = ground arith

claims_oldest : (claim true "w" 100 [] outbox).0 ≡ some 2
unfolding claim oldest claimable
claims_oldest = refl

claim-Claims_example : Claims "w" 100 [] outbox (claim true "w" 100 [] outbox)
claim-Claims_example = claim-Claims "w" 100 [] outbox outbox-HasIds

abbrev refused : Turn
refused = record { now = 100; locked = []; crm_write = true; answer = failed not_ready }

abbrev answered : Turn
answered = record {
  now = 200;
  locked = [];
  crm_write = true;
  answer = published "codestra" (some "x9");
}

turns-potential_example :
    (turns "w" (refused ∷ answered ∷ []) outbox).0
      + potential (turns "w" (refused ∷ answered ∷ []) outbox).1
    ≤ potential outbox
turns-potential_example = turns-potential "w" (refused ∷ answered ∷ []) outbox outbox-HasIds

abbrev one_left : OutboxDb
one_left = record { events = failing ∷ []; integration_events = []; exhausted = []; audit = [] }

one_left-HasIds : HasIds one_left
one_left-HasIds k = ground arith

turns-Drains_example : Drains "w" (refused ∷ answered ∷ []) one_left
turns-Drains_example =
    turns-Drains "w" (refused ∷ answered ∷ []) one_left one_left-HasIds (omega arith)

abbrev stuck : OutboxEvent
stuck = record waiting {
  status = OutboxStatus.leased;
  lease_owner = some "gone";
  lease_expires_at = some 60;
}

abbrev crashed : OutboxDb
crashed = record { events = stuck ∷ []; integration_events = []; exhausted = []; audit = [] }

crashed-HasIds : HasIds crashed
crashed-HasIds k = ground arith

abbrev much_later : List Step
much_later =
    claims true "w" 9000 []
    ∷ delivers true "w" true 9001 (failed not_ready) 1
    ∷ requeues "ops" "stuck" 1
    ∷ claims true "v" 9002 []
    ∷ []

run-leased_example : event_row 1 (run much_later crashed).events ≡ some stuck
run-leased_example =
    run-leased much_later crashed stuck "gone" crashed-HasIds refl refl refl
      (refl, (refl, (refl, (refl, tt))))

provider_retry_delay_seconds-bounds_example :
    (2 ≤ provider_retry_delay_seconds (λ _ _. 65535) 7 3)
    × (provider_retry_delay_seconds (λ _ _. 65535) 7 3 ≤ 3600)
    × (base_delay 3 ≤ provider_retry_delay_seconds (λ _ _. 65535) 7 3)
    × (4 * provider_retry_delay_seconds (λ _ _. 65535) 7 3 ≤ 5 * base_delay 3)
provider_retry_delay_seconds-bounds_example = provider_retry_delay_seconds-bounds (λ _ _. 65535) 7 3

abbrev fresh : ProviderState
fresh = record {
  attempt_count = 6;
  last_error = none;
  next_attempt_at = none;
  terminal_at = none;
  lease_owner = none;
  lease_expires_at = none;
}

abbrev host : WorkerHost
host = record { worker = "w"; now = 100; digest = λ k n. k + n }

abbrev timeouts : List (WorkerHost × String)
timeouts = (host, "timeout") ∷ (host, "timeout") ∷ []

failures-terminal_example :
    is_null (failures 7 timeouts fresh).terminal_at ≡ ltb (fresh.attempt_count + length timeouts) 8
failures-terminal_example = failures-terminal 7 timeouts fresh refl (omega arith)

abbrev upload : DocumentStatus → Document
upload s = record {
  id = 5;
  created_at = 50;
  status = s;
  storage_key = "docs/5";
  storage_version_id = some "v1";
  sha256 = "abc";
  scan_provider = none;
  scan_result = none;
  scanned_at = none;
  provider = fresh;
}

abbrev uploads : ScanDb
uploads = record {
  documents = upload DocumentStatus.quarantined ∷ [];
  exceptions = [];
  deleted = [];
}

uploads-IsKeyed : IsKeyed (λ (d : Document). d.id) uploads.documents
uploads-IsKeyed k = ground arith

abbrev scanner : ScanHost
scanner = record {
  host = host;
  strip = λ t. t;
  lower = λ t. t;
  sha256 = λ t. t;
  get_private = λ k v. value "abc";
  scan = λ t. value (record { provider = "clamav"; raw = "OK"; is_clean = true });
}

abbrev scanned : Document
scanned = record (upload DocumentStatus.clean) {
  scan_provider = some "clamav";
  scan_result = some "OK";
  scanned_at = some 100;
  provider = provider_succeeded (lease_provider_item host fresh);
}

scan_pending_document_clean_example :
    (is_clean_status DocumentStatus.quarantined ≡ true)
    ⊎ Passed scanner (upload DocumentStatus.quarantined)
unfolding scan_pending_document scan_leased is_ready oldest
scan_pending_document_clean_example =
    scan_pending_document_clean true scanner uploads 5 (upload DocumentStatus.quarantined) scanned
      uploads-IsKeyed refl refl refl

abbrev contract : Contract
contract = record {
  id = 6;
  application_id = 1;
  offer_id = 2;
  template_version = "v1";
  status = ContractStatus.draft;
}

abbrev application : Application
application = record {
  id = 1;
  lead_id = 3;
  borrower_subject = none;
  borrower_organization_id = some 40;
  requested_amount = 5000000;
  monthly_revenue = 2000000;
  time_in_business_months = 30;
  industry = none;
  state = some "NY";
  status = ApplicationStatus.conditions_complete;
  version = 4;
}

abbrev signing : SigningDb
signing = record {
  db = record {
    applications = application ∷ [];
    history = [];
    fundings = [];
    contracts = contract ∷ [];
    submissions = [];
    offers = [];
    conditions = [];
    renewals = [];
    audit = [];
    uuid4 = λ n. n;
    generated = 0;
  };
  deliveries =
      record {
        contract_id = 6;
        created_at = 10;
        provider = none;
        external_envelope_id = none;
        signed_at = none;
        state = fresh;
      }
      ∷ [];
  owners =
      record {
        application_id = 1;
        ownership_percent = 60;
        created_at = 1;
        email = some "owner@example.com";
      }
      ∷ [];
  exhausted = [];
}

abbrev signer : SigningHost
signer = record {
  host = host;
  strip = λ t. t;
  terminal_reason = λ _. "Application is terminal";
  early_error = λ _. "moneybee: application is not ready for contract delivery";
  send_envelope = λ k to. value (record { envelope_id_camel = some "E1"; envelope_id = none });
}

-- the application goes by way of `contract_ready`
sends_draft : (send_pending_contract_envelope true signer signing).0 ≡ ok (some 6)
unfolding send_pending_contract_envelope next_contract oldest is_ready same_status mark_sent
    transition_contract transition_application may_move
sends_draft = refl

send_pending_contract_envelope-Sends_example :
    Sends signing.db (send_pending_contract_envelope true signer signing)
send_pending_contract_envelope-Sends_example =
    send_pending_contract_envelope-Sends true signer signing
