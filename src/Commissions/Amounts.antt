-- ===== src/Commissions/Amounts.antt =====
-- `create_commission_adjustment` and `record_commission_receipt` of app/admin_routes.py. The caller has
-- the permission of the route.
use moneybee_backend.Base.{
  ℕ, ◌+◌, String, Bool, false, not, ◌&&◌, Option, none, some, [], ◌∷◌, ◌++◌, ltb, ◌==◌,
  if◌then◌else◌,
}
use moneybee_backend.Base.Int.{ℤ, pos, negsuc}
use moneybee_backend.Commissions.Cents.{
  SignedAmount, Amount, stored_signed, stored, net_with, sum_with, at_most, at_least, fits, reaches,
  is_some_money,
}
use moneybee_backend.Base.Action.{ok, err, pure, ◌>>=◌, gets, or_raise, raise_unless}
use moneybee_backend.Commissions.Rows.{
  CommissionStatus, Commission, CommissionAdjustment, CommissionRecord, CommissionDb,
  AdjustmentInput, ReceiptInput, PayloadHash, Response, CommissionAction, adjustment_row,
  load_commission, net_expected_amount, split_total, adjustments_of, receipts_of, received,
  expected, partially_received, adjustment, commission, amount_is_zero, net_not_positive,
  receipts_exceed_net, splits_exceed_net, receipt_exceeds_net, replay_unavailable,
  adjustment_recorded, receipt_recorded,
}
use moneybee_backend.Commissions.Records.{
  with_commission, log_audit, remember, save_commission, new_id,
}

-- the status that an adjustment gives, by the net amount before it is stored
abbrev pub status_for : ℕ → SignedAmount → CommissionStatus
status_for received_amount net =
    if at_most net (pos received_amount)
    then received
    else if ltb 0 received_amount
    then partially_received
    else expected

abbrev pub new_adjustment : String → ℕ → ℕ → Bool → AdjustmentInput → CommissionAdjustment
new_adjustment actor_id id k up payload = record {
  id = id;
  commission_id = k;
  adjustment_type = payload.adjustment_type;
  amount = stored_signed up payload.amount;
  reason = payload.reason;
  created_by = actor_id;
}

abbrev pub add_adjustment : CommissionAdjustment → CommissionDb → CommissionDb
add_adjustment a db = record db {
  adjustments = db.adjustments ++ a ∷ [];
  generated = db.generated + 1;
}

abbrev pub store_adjustment :
    String
    → String
    → String
    → Commission
    → AdjustmentInput
    → SignedAmount
    → CommissionAction Response
store_adjustment actor_id key request_hash c payload net db =
    let up = db.rounds_up payload.amount.cents payload.amount.rest in
    let a = new_adjustment actor_id (new_id db) c.id up payload in
    (
      ok (adjustment a),
      remember (adjustments_of c.id) actor_id key request_hash 201 a.id (
          log_audit (adjustment_recorded actor_id c.id payload.adjustment_type payload.amount) (
            save_commission (record c { status = status_for c.received_amount net })
              (add_adjustment a db))),
    )

unfoldable pub adjust :
    String → String → String → Commission → AdjustmentInput → CommissionAction Response
adjust actor_id key request_hash c payload db =
    let adjusted_net = net_with (net_expected_amount db c) payload.amount in
    if at_most adjusted_net (pos 0)
    then (err net_not_positive, db)
    else if not (at_least adjusted_net (pos c.received_amount))
    then (err receipts_exceed_net, db)
    else if not (at_least adjusted_net (pos (split_total c.id db.splits)))
    then (err splits_exceed_net, db)
    else store_adjustment actor_id key request_hash c payload adjusted_net db

abbrev pub adjust_or_replay :
    String
    → String
    → String
    → AdjustmentInput
    → Commission
    → Option CommissionRecord
    → CommissionAction Response
adjust_or_replay actor_id key request_hash payload c none =
    adjust actor_id key request_hash c payload
adjust_or_replay actor_id key request_hash payload c (some r) =
    gets (λ db. adjustment_row r.target db.adjustments) >>= λ found.
    or_raise found replay_unavailable >>= λ a. pure (adjustment a)

abbrev pub has_no_cents : ℤ → Bool
has_no_cents (pos n) = n == 0
has_no_cents (negsuc n) = false

abbrev pub is_zero : SignedAmount → Bool
is_zero a = has_no_cents a.cents && a.rest == 0

unfoldable pub create_commission_adjustment :
    PayloadHash → String → ℕ → AdjustmentInput → String → CommissionAction Response
create_commission_adjustment hash actor_id k payload key =
    let request_hash = hash.of_adjustment payload in
    raise_unless (not (is_zero payload.amount)) amount_is_zero >>= λ _.
    with_commission k (adjustments_of k) actor_id key request_hash
      (adjust_or_replay actor_id key request_hash payload)

-- the status after a receipt, by the amount before it is stored: an old one stays where nothing is
-- received
abbrev pub status_after : CommissionStatus → Amount → ℤ → CommissionStatus
status_after old sum net =
    if reaches sum net then received else if is_some_money sum then partially_received else old

-- The commission as it is read back: the sum is rounded when it is stored, the status is not set again.
abbrev pub received_more : Bool → Amount → ℤ → Commission → Commission
received_more up amount net c = record c {
  received_amount = stored up (sum_with c.received_amount amount);
  status = status_after c.status (sum_with c.received_amount amount) net;
}

abbrev pub store_receipt :
    String → String → String → Commission → ReceiptInput → CommissionAction Response
store_receipt actor_id key request_hash c payload db =
    let sum = sum_with c.received_amount payload.amount in
    let up = db.rounds_up (pos sum.cents) sum.rest in
    let c' = received_more up payload.amount (net_expected_amount db c) c in
    (
      ok (commission c'),
      remember (receipts_of c.id) actor_id key request_hash 200 c.id (
          log_audit (receipt_recorded actor_id c.id payload.amount payload.reference sum)
            (save_commission c' db)),
    )

unfoldable pub receive :
    String → String → String → Commission → ReceiptInput → CommissionAction Response
receive actor_id key request_hash c payload db =
    if fits (sum_with c.received_amount payload.amount) (net_expected_amount db c)
    then store_receipt actor_id key request_hash c payload db
    else (err receipt_exceeds_net, db)

abbrev pub receive_or_replay :
    String
    → String
    → String
    → ReceiptInput
    → Commission
    → Option CommissionRecord
    → CommissionAction Response
receive_or_replay actor_id key request_hash payload c none =
    receive actor_id key request_hash c payload
receive_or_replay actor_id key request_hash payload c (some r) =
    load_commission c.id >>= λ c'. pure (commission c')

unfoldable pub record_commission_receipt :
    PayloadHash → String → ℕ → ReceiptInput → String → CommissionAction Response
record_commission_receipt hash actor_id k payload key =
    let request_hash = hash.of_receipt payload in
    with_commission k (receipts_of k) actor_id key request_hash
      (receive_or_replay actor_id key request_hash payload)
