-- ===== src/Worker/Outbox.antt =====
-- Delivery of outbox events: `claim`, `deliver` and the first step of the loop of `run` in
-- app/worker.py, and `requeue_crm_delivery` of app/public_intake_routes.py. The rows are those of
-- app/models.py and app/integration_models.py.
pub mod Takes
pub mod Claims
pub mod Rounds
pub mod Leases
use Prim.Native.Nat.{◌^◌}
use moneybee_backend.Base.{
  ℕ, ◌+◌, String, Bool, true, false, not, ◌&&◌, ◌||◌, Option, none, some, List, [], ◌∷◌, ◌++◌, row,
  put, contains, equal, filter, map, ltb, leb, if◌then◌else◌,
}
use moneybee_backend.Base.Oldest.{oldest}
use moneybee_backend.Base.Text.{String-discrete}
use moneybee_backend.Base.Action.{
  Action, pure, raise, ◌>>=◌, ◌>>◌, gets, modify, or_raise, raise_unless,
}

-- `models.OutboxStatus`
pub data OutboxStatus : Type 0 where
  pending leased delivered retry dead : OutboxStatus

-- `is_public` is that the event's type starts with `public.`.
pub record OutboxEvent : Type 0 where
  pub id : ℕ
  pub aggregate_id : ℕ
  pub is_public : Bool
  pub correlation_id : Option String
  pub created_at : ℕ
  pub status : OutboxStatus
  pub attempt_count : ℕ
  pub lease_owner : Option String
  pub lease_expires_at : Option ℕ
  pub next_attempt_at : Option ℕ
  pub first_attempt_at : Option ℕ
  pub last_attempt_at : Option ℕ
  pub delivered_at : Option ℕ
  pub provider : Option String
  pub destination : Option String
  pub last_http_status : Option ℕ
  pub last_error_code : Option String
  pub last_error : Option String

pub record IntegrationEvent : Type 0 where
  pub provider : String
  pub aggregate_id : ℕ
  pub status : String
  pub attempts : ℕ
  pub external_id : Option String
  pub last_error : Option String

-- `OperationalException` with the code `OUTBOX_RETRY_EXHAUSTED`, whose fingerprint is the event's id
pub record RetryExhausted : Type 0 where
  pub event_id : ℕ
  pub correlation_id : Option String

-- the audit row `CRM_DELIVERY_REQUEUED`
pub record CrmRequeued : Type 0 where
  pub actor_id : String
  pub event_id : ℕ
  pub reason : String

pub record OutboxDb : Type 0 where
  pub events : List OutboxEvent
  pub integration_events : List IntegrationEvent
  pub exhausted : List RetryExhausted
  pub audit : List CrmRequeued

abbrev pub event_row : ℕ → List OutboxEvent → Option OutboxEvent
event_row = row (λ (e : OutboxEvent). e.id)

abbrev pub save_event : OutboxEvent → OutboxDb → OutboxDb
save_event e db = record db { events = put (λ (x : OutboxEvent). x.id) e db.events }

abbrev pub is_waiting : OutboxStatus → Bool
is_waiting pending = true
is_waiting retry = true
is_waiting leased = false
is_waiting delivered = false
is_waiting dead = false

-- `next_attempt_at IS NULL OR next_attempt_at <= now`
abbrev pub is_due : ℕ → Option ℕ → Bool
is_due now none = true
is_due now (some t) = leb t now

-- `lease_expires_at IS NULL OR lease_expires_at < now`
abbrev pub is_over : ℕ → Option ℕ → Bool
is_over now none = true
is_over now (some t) = ltb t now

-- The condition of the query. `locked` has the ids of the rows that other transactions hold, which
-- `SKIP LOCKED` leaves out.
unfoldable pub claimable : ℕ → List ℕ → OutboxEvent → Bool
claimable now locked e =
    is_waiting e.status
    && is_due now e.next_attempt_at
    && is_over now e.lease_expires_at
    && not (contains e.id locked)

-- `ORDER BY created_at LIMIT 1`
abbrev pub oldest_event : (OutboxEvent → Bool) → List OutboxEvent → Option OutboxEvent
oldest_event = oldest (λ (e : OutboxEvent). e.created_at)

-- `value or now`
abbrev pub or_now : Option ℕ → ℕ → Option ℕ
or_now none now = some now
or_now (some t) now = some t

abbrev pub claimed : String → ℕ → OutboxEvent → OutboxEvent
claimed worker now e = record e {
  status = leased;
  lease_owner = some worker;
  lease_expires_at = some (now + 60);
  attempt_count = e.attempt_count + 1;
  first_attempt_at = or_now e.first_attempt_at now;
  last_attempt_at = some now;
  provider = some "codestra";
  destination = some "codestra:event-ingress";
}

abbrev pub claim_found : String → ℕ → Option OutboxEvent → OutboxDb → Option ℕ × OutboxDb
claim_found worker now none db = (none, db)
claim_found worker now (some e) db = (some e.id, save_event (claimed worker now e) db)

-- `enabled` is `external_delivery_enabled()`, `worker` the `WORKER_ID`.
unfoldable pub claim : Bool → String → ℕ → List ℕ → OutboxDb → Option ℕ × OutboxDb
claim enabled worker now locked db =
    if enabled
    then claim_found worker now (oldest_event (claimable now locked) db.events) db
    else (none, db)

-- an exception: its text cut at 1000 characters, its class's name cut at 120, its status if it is a
-- `ProviderError`
pub record Failure : Type 0 where
  pub message : String
  pub code : String
  pub http_status : Option ℕ

-- what the adapter's `publish` gives
pub data PublishAnswer : Type 0 where
  published : String → Option String → PublishAnswer
  failed : Failure → PublishAnswer

-- the `ProviderError` where `crm.write` is off
abbrev pub not_ready : Failure
not_ready = record {
  message = "codestra: crm.write is not enabled and provider-ready";
  code = "ProviderError";
  http_status = none;
}

-- the body of the `try`, up to the answer
abbrev pub ask : Bool → PublishAnswer → PublishAnswer
ask true answer = answer
ask false answer = failed not_ready

-- `min(3600, 2 ** attempt_count)`
unfoldable pub backoff : ℕ → ℕ
backoff attempts = if leb 3600 (2 ^ attempts) then 3600 else 2 ^ attempts

-- the assignments of the `finally` block
abbrev pub released : OutboxEvent → OutboxEvent
released e = record e { lease_owner = none; lease_expires_at = none }

abbrev pub delivered_event : ℕ → OutboxEvent → OutboxEvent
delivered_event now e = released (record e {
  status = delivered;
  delivered_at = some now;
  last_error = none;
  last_error_code = none;
})

-- `attempt_count >= 8`
abbrev pub is_terminal : OutboxEvent → Bool
is_terminal e = leb 8 e.attempt_count

abbrev pub failed_event : ℕ → Failure → OutboxEvent → OutboxEvent
failed_event now f e = released (record e {
  status = if is_terminal e then dead else retry;
  next_attempt_at = some (now + backoff e.attempt_count);
  last_error = some f.message;
  last_error_code = some f.code;
  last_http_status = f.http_status;
})

abbrev pub has_exhausted : ℕ → List RetryExhausted → Bool
has_exhausted k xs = contains k (map (λ (x : RetryExhausted). x.event_id) xs)

abbrev pub open_exhausted : OutboxEvent → List RetryExhausted → List RetryExhausted
open_exhausted e xs =
    if is_terminal e && not (has_exhausted e.id xs)
    then xs ++ record { event_id = e.id; correlation_id = e.correlation_id } ∷ []
    else xs

abbrev pub log_integration : IntegrationEvent → OutboxDb → OutboxDb
log_integration x db = record db { integration_events = db.integration_events ++ x ∷ [] }

-- the rest of the `try` statement, by the answer
unfoldable pub settle_delivery : ℕ → PublishAnswer → OutboxEvent → OutboxDb → OutboxDb
settle_delivery now (published provider external_id) e db = save_event (delivered_event now e) (
    log_integration
      (record {
        provider = provider;
        aggregate_id = e.aggregate_id;
        status = "DELIVERED";
        attempts = e.attempt_count;
        external_id = external_id;
        last_error = none;
      })
      db)
settle_delivery now (failed f) e db = save_event (failed_event now f e) (
    log_integration
      (record {
        provider = "codestra";
        aggregate_id = e.aggregate_id;
        status = "FAILED";
        attempts = e.attempt_count;
        external_id = none;
        last_error = some f.message;
      })
      (record db { exhausted = open_exhausted e db.exhausted }))

-- the branch where the gate was shut between the claim and the delivery
abbrev pub put_back : OutboxEvent → OutboxEvent
put_back e = released (record e { status = pending })

abbrev pub owns_lease : String → Option String → Bool
owns_lease worker none = false
owns_lease worker (some w) = equal String-discrete w worker

abbrev pub deliver_found :
    Bool → String → Bool → ℕ → PublishAnswer → Option OutboxEvent → OutboxDb → OutboxDb
deliver_found enabled worker crm_write now answer none db = db
deliver_found enabled worker crm_write now answer (some e) db =
    if owns_lease worker e.lease_owner
    then if enabled
      then settle_delivery now (ask crm_write answer) e db
      else save_event (put_back e) db
    else db

-- `crm_write` is the effective capability, `answer` what `publish` would give.
unfoldable pub deliver : Bool → String → Bool → ℕ → PublishAnswer → ℕ → OutboxDb → OutboxDb
deliver enabled worker crm_write now answer event_id db =
    deliver_found enabled worker crm_write now answer (event_row event_id db.events) db

-- What a turn of the loop meets: the time, the locked rows, and what the delivery depends on.
pub record Turn : Type 0 where
  pub now : ℕ
  pub locked : List ℕ
  pub crm_write : Bool
  pub answer : PublishAnswer

abbrev pub deliver_claimed : String → Turn → Option ℕ × OutboxDb → Bool × OutboxDb
deliver_claimed worker turn (none, db) = (false, db)
deliver_claimed worker turn (some k, db) =
    (true, deliver true worker turn.crm_write turn.now turn.answer k db)

-- The first step of the loop of `run`, with the gate open: whether it did work, and the rows.
unfoldable pub outbox_turn : String → Turn → OutboxDb → Bool × OutboxDb
outbox_turn worker turn db = deliver_claimed worker turn (claim true worker turn.now turn.locked db)

pub data RequeueProblem : Type 0 where
  not_found already_delivered currently_leased : RequeueProblem

abbrev pub is_delivered : OutboxStatus → Bool
is_delivered delivered = true
is_delivered _ = false

abbrev pub is_leased : OutboxStatus → Bool
is_leased leased = true
is_leased _ = false

-- `_crm_event_filter`
unfoldable pub is_crm_event : OutboxEvent → Bool
is_crm_event e = elim e.destination [
  | none ↦ e.is_public
  | some d ↦ equal String-discrete d "codestra:crm-projection" || e.is_public
]

abbrev pub crm_row : ℕ → OutboxDb → Option OutboxEvent
crm_row k db = row (λ (e : OutboxEvent). e.id) k (filter is_crm_event db.events)

abbrev pub requeued : OutboxEvent → OutboxEvent
requeued e = released (record e {
  status = pending;
  next_attempt_at = none;
  last_error = none;
  last_error_code = none;
})

abbrev pub log_requeue : CrmRequeued → OutboxDb → OutboxDb
log_requeue x db = record db { audit = db.audit ++ x ∷ [] }

abbrev pub requeue_found : String → String → OutboxEvent → Action OutboxDb RequeueProblem (Unit {0})
requeue_found actor_id reason e =
    if is_delivered e.status
    then raise already_delivered
    else if is_leased e.status
    then raise currently_leased
    else modify (save_event (requeued e))
      >> modify (log_requeue (record { actor_id = actor_id; event_id = e.id; reason = reason }))

-- The caller has the permission of the route.
unfoldable pub requeue_crm_delivery :
    String → String → ℕ → Action OutboxDb RequeueProblem (Unit {0})
requeue_crm_delivery actor_id reason delivery_id = do
  found ← gets (crm_row delivery_id)
  event ← or_raise found not_found
  requeue_found actor_id reason event
