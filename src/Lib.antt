-- ===== src/Lib.antt =====
-- Moneybee backend: the rules of app/services.py on applications, fundings, contracts and renewals,
-- the double-entry ledger of app/financial_service.py, the voiding of contracts in
-- app/contract_void_service.py, the worker of app/worker.py, the commission routes of
-- app/admin_routes.py, and the locks of app/idempotency.py.
--
-- The backend is a FastAPI application over a relational database. Routes call the services; the
-- services read and change rows through a session, raise an HTTP problem where a rule forbids the
-- call, and commit or leave the commit to the caller. A service is modelled as a function from the
-- session's rows to a result and the rows after the call (Base.Action): a raise also hands the rows
-- back, because the objects of a session keep what was assigned to them before it.
--
-- The parts and their files:
-- - Base: lists, tables of rows with a key (Base.Rows), texts, service calls (Base.Action), tests
--   of every number below a bound (Base.Ranges).
-- - Principal: the caller, `Principal` of app/auth.py.
-- - Lifecycle.Status, Lifecycle.Db: the statuses and rows of app/models.py with the transition
--   tables of app/services.py; the session with what the services change in it.
-- - Lifecycle.Application: `transition_application`. The table decides; a move logs a history row
--   and counts the version.
-- - Lifecycle.Funding: `transition_funding`, which looks up the application's target status, walks
--   the application through each stage between by `transition_application` and writes an audit row.
-- - Lifecycle.Conditions: `advance_funding_if_conditions_satisfied` and
--   `advance_submissionless_funding`, which call `transition_funding` when every underwriting
--   condition is met and make sure that the offer has a draft contract.
-- - Lifecycle.Renewal: `transition_renewal_status` and `evaluate_renewal_eligibility`.
-- - Ledger.Records, Ledger.Access: the rows of app/financial_models.py, the commands of
--   app/financial_schemas.py, and the checks on the caller and the idempotency key.
-- - Ledger.Journal: `post_journal`, `_existing_journal` and `period_for_date`. Journal.Cases and
--   Journal.Entry split a call into the ways it can go, Journal.Outcomes says what each leads to.
-- - Ledger.Setup: `create_ledger_account`, `create_accounting_period`, `close_accounting_period`.
--   Setup.Calendar is about the periods together, Setup.Closing about one close, Setup.Managers
--   about its caller, Setup.Shut about posting after it.
-- - Ledger.Balance: `trial_balance`.
-- - Ledger.Sound: the invariant of the ledger, posting and the trial balance under it.
-- - ContractVoid: `ensure_provider_void_confirmed`, which asks the e-sign provider to void an
--   envelope, reads back an unclear outcome, and keeps an operational exception open until the
--   read-back is clear. ContractVoid.Outcomes says how a call ends, ContractVoid.Retry what a
--   repeated one sends to the provider.
-- - Matching: `score`, `match`, `authorize_application` and `get_authorized_application` of
--   app/services.py, on the session of the lifecycle with lender programs and matches. `match` moves
--   the application by `transition_application`.
-- - Worker.Outbox: `claim`, `deliver`, the first step of the loop of `run`, and
--   `requeue_crm_delivery` of app/public_intake_routes.py. Outbox.Takes and Outbox.Claims
--   say what a claim takes, Outbox.Rounds counts the turns, Outbox.Leases runs claims, deliveries
--   and requeues in any order.
-- - Worker.Items: the leases and retries of what the worker hands to providers.
-- - Worker.Scans: `scan_pending_document`.
-- - Worker.Signing: `send_pending_contract_envelope`, which moves the contract and its application by
--   the services of the lifecycle.
-- - Worker.Inbox: `process_pending_docusign_event`, which moves a contract and its funding by the
--   services of the lifecycle. Inbox.Applied says what a run does, Inbox.Stuck which message ends it.
-- - Commissions: the four routes of app/admin_routes.py that change a commission of a funded
--   application, with their idempotency records: adjustments and receipts (Commissions.Amounts),
--   splits and their payment (Commissions.Shares). Commissions.Account is the account that a
--   commission promises, Commissions.Refinement holds the routes against it, Commissions.First
--   says when a request is carried out, Commissions.Replays repeats requests. Commissions.Cents has
--   the amounts of their payloads, Commissions.Whole the accounts that only whole cents change.
-- - Idempotency: the advisory lock and the record lookup of app/idempotency.py. Idempotency.Locks is
--   about the lock's number.
-- Tests stand in Lifecycle.Tests, Ledger.Tests, ContractVoid.Tests, Matching.Tests,
-- Worker.Tests, Worker.Inbox.Tests, Commissions.Tests and Idempotency.Tests.
--
-- Ids are numbers, times are seconds, stored amounts are whole cents (the columns have two
-- decimals), all natural numbers without a bound, as Python's are; an amount that can be negative is
-- an integer (Base.Int). The schemas of the commission routes accept parts of a cent: an amount of
-- their payloads has whole cents and a rest below (Commissions.Cents), which the routes compare and
-- add as it is, and which the column rounds. Every loop goes over a list and is structural recursion,
-- so no fuel is needed; the endless loop of the worker stands as a list of its turns. Lists stand for
-- tables in the order of insertion; where a query sorts by time and id, this order stands for it.
--
-- Parameters stand for what is outside the source: the new ids of `uuid.uuid4()`, the clock, the
-- operations on texts, the SHA-256 of a command's JSON (`Host`, `PayloadHash`) and of a key
-- (`KeyHash`), the providers' answers (`ESignAdapter`, `PublishAnswer`, `ScanHost`, `SigningHost`,
-- `InboxHost`), the gates of the environment, the direction in which the database rounds
-- (`rounds_up`), and what a concurrent transaction left behind when a commit raises `IntegrityError`
-- (`race`). A row that another transaction holds is one of the list `locked` of a claim.
--
-- Not modelled: the other routes, request parsing and HTTP details, token checks, provider
-- adapters, the portal, migrations and deployment; lead intake, underwriting, rate limits and
-- compliance; texts of problems and most fields of the audit and outbox rows; other row locks,
-- since a call runs alone; list queries, entry numbers and metadata of the ledger.
pub mod Base
pub mod Principal
pub mod Lifecycle
pub mod Ledger
pub mod ContractVoid
pub mod Matching
pub mod Worker
pub mod Commissions
pub mod Idempotency
