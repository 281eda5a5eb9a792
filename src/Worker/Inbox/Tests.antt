-- ===== src/Worker/Inbox/Tests.antt =====
-- Messages of the e-sign provider, and the theorems at concrete inputs.
use moneybee_backend.Base.{◌+◌, ◌≡◌, refl, none, some, [], ◌∷◌}
use moneybee_backend.Base.Oldest.{oldest}
use moneybee_backend.Base.Action.{err}
use moneybee_backend.Lifecycle.Status.{ApplicationStatus, ContractStatus, FundingStatus}
use moneybee_backend.Lifecycle.Db.{Application, Contract, Funding, value_error}
use moneybee_backend.Lifecycle.Funding.{lifecycle_index}
use moneybee_backend.Worker.Signing.{ContractDelivery}
use moneybee_backend.Worker.Inbox.{
  InboxStatus, InboxMessage, InboxDb, InboxHost, next_message, process_pending_docusign_event,
}
use moneybee_backend.Worker.Inbox.Applied.{Applies, process_pending_docusign_event-Applies}
use moneybee_backend.Worker.Inbox.Stuck.{process_pending_docusign_event_stuck}

abbrev completed : InboxMessage
completed = record {
  id = 8;
  created_at = 30;
  provider = "docusign";
  payload = record {
    envelope_id_camel = some "E1";
    envelope_id = none;
    data_envelope_id = none;
    status = some "completed";
    summary_status = none;
    event = none;
  };
  status = InboxStatus.waiting_for_worker;
  attempts = 0;
  processed_at = none;
  last_error = none;
  next_attempt_at = none;
}

abbrev sent_contract : Contract
sent_contract = record {
  id = 6;
  application_id = 1;
  offer_id = 2;
  template_version = "v1";
  status = ContractStatus.sent;
}

abbrev satisfied : Funding
satisfied = record {
  id = 3;
  application_id = 1;
  offer_id = 2;
  status = FundingStatus.conditions_satisfied;
  funded_amount = none;
  funding_confirmed_at = none;
}

abbrev application_at : ApplicationStatus → Application
application_at s = record {
  id = 1;
  lead_id = 3;
  borrower_subject = none;
  borrower_organization_id = some 40;
  requested_amount = 5000000;
  monthly_revenue = 2000000;
  time_in_business_months = 30;
  industry = none;
  state = some "NY";
  status = s;
  version = 4;
}

abbrev envelope : ContractDelivery
envelope = record {
  contract_id = 6;
  created_at = 10;
  provider = some "docusign";
  external_envelope_id = some "E1";
  signed_at = none;
  state = record {
    attempt_count = 1;
    last_error = none;
    next_attempt_at = none;
    terminal_at = none;
    lease_owner = none;
    lease_expires_at = none;
  };
}

abbrev inbox_at : ApplicationStatus → InboxDb
inbox_at s = record {
  db = record {
    applications = application_at s ∷ [];
    history = [];
    fundings = satisfied ∷ [];
    contracts = sent_contract ∷ [];
    submissions = [];
    offers = [];
    conditions = [];
    renewals = [];
    audit = [];
    uuid4 = λ n. n;
    generated = 0;
  };
  deliveries = envelope ∷ [];
  messages = completed ∷ [];
}

abbrev reader : InboxHost
reader = record {
  host = record { worker = "w"; now = 100; digest = λ k n. k + n };
  lower = λ t. t;
  without_prefix = λ t. t;
  no_contract = λ t. t;
  problem_text = λ _. "409";
}

process_pending_docusign_event-Applies_example :
    Applies reader
      (inbox_at ApplicationStatus.contract_sent)
      (process_pending_docusign_event reader (inbox_at ApplicationStatus.contract_sent))
process_pending_docusign_event-Applies_example =
    process_pending_docusign_event-Applies reader (inbox_at ApplicationStatus.contract_sent)

process_pending_docusign_event_stuck_example :
    process_pending_docusign_event reader (inbox_at ApplicationStatus.declined)
    ≡ (err value_error, inbox_at ApplicationStatus.declined)
unfolding next_message oldest lifecycle_index
process_pending_docusign_event_stuck_example =
    process_pending_docusign_event_stuck reader (inbox_at ApplicationStatus.declined) completed "E1"
      (record { contract = sent_contract; delivery = envelope }) satisfied
      (application_at ApplicationStatus.declined) refl refl refl refl refl refl refl refl refl
