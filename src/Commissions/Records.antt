-- ===== src/Commissions/Records.antt =====
-- What the commission routes of app/admin_routes.py share: the stored idempotency records and the audit
-- rows.
use moneybee_backend.Base.{
  ℕ, String, Bool, false, ◌&&◌, Option, none, some, List, [], ◌∷◌, ◌++◌, put, equal, ◌==◌,
  if◌then◌else◌,
}
use moneybee_backend.Base.Text.{String-discrete}
use moneybee_backend.Base.Action.{pure, raise, ◌>>=◌}
use moneybee_backend.Commissions.Rows.{
  Commission, CommissionRoute, CommissionRecord, CommissionAudit, CommissionDb, Response,
  CommissionAction, load_commission, adjustments_of, receipts_of, splits_of, mark_paid_of,
  payload_conflict,
}

abbrev pub same_route : CommissionRoute → CommissionRoute → Bool
same_route (adjustments_of j) (adjustments_of k) = j == k
same_route (receipts_of j) (receipts_of k) = j == k
same_route (splits_of j) (splits_of k) = j == k
same_route (mark_paid_of i j) (mark_paid_of k l) = i == k && j == l
same_route (adjustments_of _) (receipts_of _) = false
same_route (adjustments_of _) (splits_of _) = false
same_route (adjustments_of _) (mark_paid_of _ _) = false
same_route (receipts_of _) (adjustments_of _) = false
same_route (receipts_of _) (splits_of _) = false
same_route (receipts_of _) (mark_paid_of _ _) = false
same_route (splits_of _) (adjustments_of _) = false
same_route (splits_of _) (receipts_of _) = false
same_route (splits_of _) (mark_paid_of _ _) = false
same_route (mark_paid_of _ _) (adjustments_of _) = false
same_route (mark_paid_of _ _) (receipts_of _) = false
same_route (mark_paid_of _ _) (splits_of _) = false

abbrev pub is_record_for : String → CommissionRoute → String → CommissionRecord → Bool
is_record_for actor_id route key r =
    equal String-discrete r.actor_id actor_id
    && same_route r.route route
    && equal String-discrete r.key key

unfoldable pub record_for :
    String → CommissionRoute → String → List CommissionRecord → Option CommissionRecord
record_for actor_id route key [] = none
record_for actor_id route key (r ∷ rows) =
    let rest = record_for actor_id route key rows in
    if is_record_for actor_id route key r then some r else rest

abbrev pub checked_record :
    String → Option CommissionRecord → CommissionAction (Option CommissionRecord)
checked_record request_hash none = pure none
checked_record request_hash (some r) =
    if equal String-discrete r.request_hash request_hash
    then pure (some r)
    else raise payload_conflict

-- `_funding_idempotency_replay`
abbrev pub idempotency_replay :
    CommissionRoute → String → String → String → CommissionAction (Option CommissionRecord)
idempotency_replay route actor_id key request_hash db =
    checked_record request_hash (record_for actor_id route key db.records) db

-- what the four routes share: the commission, then the stored record, then the rest
unfoldable pub with_commission :
    ℕ
    → CommissionRoute
    → String
    → String
    → String
    → (Commission → Option CommissionRecord → CommissionAction Response)
    → CommissionAction Response
with_commission k route actor_id key request_hash rest =
    load_commission k >>= λ c. idempotency_replay route actor_id key request_hash >>= rest c

abbrev pub log_audit : CommissionAudit → CommissionDb → CommissionDb
log_audit x db = record db { audit = db.audit ++ x ∷ [] }

-- the idempotency record that a route stores
abbrev pub new_record : CommissionRoute → String → String → String → ℕ → ℕ → CommissionRecord
new_record route actor_id key request_hash response_status target = record {
  key = key;
  actor_id = actor_id;
  route = route;
  request_hash = request_hash;
  response_status = response_status;
  target = target;
}

abbrev pub remember :
    CommissionRoute → String → String → String → ℕ → ℕ → CommissionDb → CommissionDb
remember route actor_id key request_hash response_status target db = record db {
  records = db.records ++ new_record route actor_id key request_hash response_status target ∷ [];
}

abbrev pub save_commission : Commission → CommissionDb → CommissionDb
save_commission c db = record db { commissions = put (λ (x : Commission). x.id) c db.commissions }

abbrev pub new_id : CommissionDb → ℕ
new_id db = db.uuid4 db.generated
