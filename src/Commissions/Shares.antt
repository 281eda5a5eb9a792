-- ===== src/Commissions/Shares.antt =====
-- `create_commission_split` and `mark_commission_split_paid` of app/admin_routes.py. The caller has the
-- permission of the route.
use moneybee_backend.Base.{
  ℕ, ◌+◌, String, Bool, true, false, Option, none, some, [], ◌∷◌, ◌++◌, map, ◌==◌, if◌then◌else◌,
}
use moneybee_backend.Base.Int.{ℤ, pos}
use moneybee_backend.Commissions.Cents.{Amount, stored, sum_with, fits}
use moneybee_backend.Base.Action.{ok, err, pure, ◌>>=◌, gets, or_raise}
use moneybee_backend.Commissions.Rows.{
  Commission, SplitStatus, CommissionSplit, CommissionRecord, CommissionDb, SplitInput,
  PaymentInput, PayloadHash, Response, CommissionAction, split_row, net_expected_amount,
  split_total, splits_of, mark_paid_of, split, pending, paid, splits_exceed_net, split_not_found,
  split_not_pending, replay_unavailable, split_created, split_payment_recorded,
}
use moneybee_backend.Commissions.Records.{with_commission, log_audit, remember, new_id}

abbrev pub stored_percentage : (ℤ → ℕ → Bool) → Option Amount → Option ℕ
stored_percentage rounds_up none = none
stored_percentage rounds_up (some p) = some (stored (rounds_up (pos p.cents) p.rest) p)

-- the split as it is read back
abbrev pub new_split : ℕ → ℕ → (ℤ → ℕ → Bool) → SplitInput → CommissionSplit
new_split id k rounds_up payload = record {
  id = id;
  commission_id = k;
  recipient_type = payload.recipient_type;
  recipient_reference = payload.recipient_reference;
  percentage = stored_percentage rounds_up payload.percentage;
  amount = stored (rounds_up (pos payload.amount.cents) payload.amount.rest) payload.amount;
  status = pending;
  paid_at = none;
  payment_reference = none;
}

abbrev pub add_split : CommissionSplit → CommissionDb → CommissionDb
add_split s db = record db { splits = db.splits ++ s ∷ []; generated = db.generated + 1 }

abbrev pub store_split :
    String → String → String → Commission → SplitInput → CommissionAction Response
store_split actor_id key request_hash c payload db =
    let s = new_split (new_id db) c.id db.rounds_up payload in
    (
      ok (split s),
      remember (splits_of c.id) actor_id key request_hash 201 s.id (
          log_audit
            (split_created actor_id c.id payload.recipient_type payload.recipient_reference
              payload.amount)
            (add_split s db)),
    )

unfoldable pub divide :
    String → String → String → Commission → SplitInput → CommissionAction Response
divide actor_id key request_hash c payload db =
    if fits (sum_with (split_total c.id db.splits) payload.amount) (net_expected_amount db c)
    then store_split actor_id key request_hash c payload db
    else (err splits_exceed_net, db)

abbrev pub divide_or_replay :
    String
    → String
    → String
    → SplitInput
    → Commission
    → Option CommissionRecord
    → CommissionAction Response
divide_or_replay actor_id key request_hash payload c none =
    divide actor_id key request_hash c payload
divide_or_replay actor_id key request_hash payload c (some r) =
    gets (λ db. split_row r.target db.splits) >>= λ found.
    or_raise found replay_unavailable >>= λ s. pure (split s)

unfoldable pub create_commission_split :
    PayloadHash → String → ℕ → SplitInput → String → CommissionAction Response
create_commission_split hash actor_id k payload key =
    let request_hash = hash.of_split payload in
    with_commission k (splits_of k) actor_id key request_hash
      (divide_or_replay actor_id key request_hash payload)

abbrev pub paid_split : PaymentInput → CommissionSplit → CommissionSplit
paid_split payload s = record s {
  status = paid;
  paid_at = some payload.paid_at;
  payment_reference = some payload.payment_reference;
}

-- The object of the session is the row with the id.
abbrev pub pay_row : ℕ → PaymentInput → CommissionSplit → CommissionSplit
pay_row id payload s = if s.id == id then paid_split payload s else s

abbrev pub pay_rows : ℕ → PaymentInput → CommissionDb → CommissionDb
pay_rows id payload db = record db { splits = map (pay_row id payload) db.splits }

abbrev pub is_pending : SplitStatus → Bool
is_pending pending = true
is_pending paid = false

-- a split with the id, if it is one of the commission
abbrev pub split_of : ℕ → Option CommissionSplit → Option CommissionSplit
split_of k none = none
split_of k (some s) = if s.commission_id == k then some s else none

abbrev pub store_payment :
    String → String → String → ℕ → PaymentInput → CommissionSplit → CommissionAction Response
store_payment actor_id key request_hash k payload s db = (
  ok (split (paid_split payload s)),
  remember (mark_paid_of k s.id) actor_id key request_hash 200 s.id (
      log_audit (split_payment_recorded actor_id s.id k payload.paid_at payload.payment_reference)
        (pay_rows s.id payload db)),
)

abbrev pub pay_found :
    String → String → String → ℕ → PaymentInput → Option CommissionSplit → CommissionAction Response
pay_found actor_id key request_hash k payload none db = (err split_not_found, db)
pay_found actor_id key request_hash k payload (some s) db =
    if is_pending s.status
    then store_payment actor_id key request_hash k payload s db
    else (err split_not_pending, db)

unfoldable pub pay : String → String → String → ℕ → ℕ → PaymentInput → CommissionAction Response
pay actor_id key request_hash k split_id payload db =
    pay_found actor_id key request_hash k payload (split_of k (split_row split_id db.splits)) db

abbrev pub pay_or_replay :
    String
    → String
    → String
    → ℕ
    → PaymentInput
    → Commission
    → Option CommissionRecord
    → CommissionAction Response
pay_or_replay actor_id key request_hash split_id payload c none =
    pay actor_id key request_hash c.id split_id payload
pay_or_replay actor_id key request_hash split_id payload c (some r) =
    gets (λ db. split_of c.id (split_row split_id db.splits)) >>= λ found.
    or_raise found replay_unavailable >>= λ s. pure (split s)

unfoldable pub mark_commission_split_paid :
    PayloadHash → String → ℕ → ℕ → PaymentInput → String → CommissionAction Response
mark_commission_split_paid hash actor_id k split_id payload key =
    let request_hash = hash.of_payment payload in
    with_commission k (mark_paid_of k split_id) actor_id key request_hash
      (pay_or_replay actor_id key request_hash split_id payload)
