-- ===== src/Commissions/Serving.antt =====
-- A property of the rows after any request to the commission routes of app/admin_routes.py, from the
-- four ways to change them.
use moneybee_backend.Base.{
  ℕ, ◌≡◌, refl, String, Option, none, some, Bool-cases, inl, inr, subst, sym,
}
use moneybee_backend.Base.Action.{or_raise, pure, ◌>>=◌}
use moneybee_backend.Commissions.Rows.{
  CommissionProblem, Commission, CommissionSplit, CommissionDb, CommissionRecord, Response,
  AdjustmentInput, ReceiptInput, SplitInput, PaymentInput, PayloadHash, commission_row,
  adjustment_row, split_row, adjustments_of, receipts_of, replay_unavailable, commission_not_found,
  splits_of, mark_paid_of,
}
use moneybee_backend.Commissions.Amounts.{
  adjust, adjust_or_replay, create_commission_adjustment, is_zero, receive, receive_or_replay,
  record_commission_receipt,
}
use moneybee_backend.Commissions.Shares.{
  divide, divide_or_replay, create_commission_split, pay, pay_found, pay_or_replay,
  mark_commission_split_paid, split_of,
}
use moneybee_backend.Commissions.Requests.{Request, adjusts, receives, divides, pays, serve}
use moneybee_backend.Commissions.Cases.{looked_up_state, with_commission_after}

-- The property may name the request.
module _ (P : Request → CommissionDb → Type 0) (actor_id key : String) (db : CommissionDb)
    (same : (r : Request) → P r db)
    (adjusted : (h : String) (k : ℕ) (payload : AdjustmentInput) (c : Commission)
      → commission_row c.id db.commissions ≡ some c
      → k ≡ c.id
      → P (adjusts k payload) (adjust actor_id key h c payload db).1)
    (received_some : (h : String) (k : ℕ) (payload : ReceiptInput) (c : Commission)
      → commission_row c.id db.commissions ≡ some c
      → k ≡ c.id
      → P (receives k payload) (receive actor_id key h c payload db).1)
    (divided : (h : String) (k : ℕ) (payload : SplitInput) (c : Commission)
      → commission_row c.id db.commissions ≡ some c
      → k ≡ c.id
      → P (divides k payload) (divide actor_id key h c payload db).1)
    (paid_out : (h : String) (k j id : ℕ) (payload : PaymentInput) (o : Option CommissionSplit)
      → split_of j (split_row id db.splits) ≡ o
      → P (pays k id payload) (pay_found actor_id key h j payload o db).1) where
  looked_up_after :
      {A : Type 0} (r : Request) (o : Option A) (x : CommissionProblem) (f : A → Response)
      → P r ((or_raise o x >>= λ a. pure (f a)) db).1
  looked_up_after r o x f = subst (P r) (sym (looked_up_state o x f db)) (same r)

  adjust_or_replay_after :
      (h : String) (k : ℕ) (payload : AdjustmentInput) (c : Commission)
      (o : Option CommissionRecord)
      → commission_row c.id db.commissions ≡ some c
      → k ≡ c.id
      → P (adjusts k payload) (adjust_or_replay actor_id key h payload c o db).1
  adjust_or_replay_after h k payload c none found its = adjusted h k payload c found its
  adjust_or_replay_after h k payload c (some r) found its =
      looked_up_after (adjusts k payload) (adjustment_row r.target db.adjustments)
        replay_unavailable Response.adjustment

  receive_or_replay_after :
      (h : String) (k : ℕ) (payload : ReceiptInput) (c : Commission) (o : Option CommissionRecord)
      → commission_row c.id db.commissions ≡ some c
      → k ≡ c.id
      → P (receives k payload) (receive_or_replay actor_id key h payload c o db).1
  receive_or_replay_after h k payload c none found its = received_some h k payload c found its
  receive_or_replay_after h k payload c (some r) found its =
      looked_up_after (receives k payload) (commission_row c.id db.commissions) commission_not_found
        Response.commission

  divide_or_replay_after :
      (h : String) (k : ℕ) (payload : SplitInput) (c : Commission) (o : Option CommissionRecord)
      → commission_row c.id db.commissions ≡ some c
      → k ≡ c.id
      → P (divides k payload) (divide_or_replay actor_id key h payload c o db).1
  divide_or_replay_after h k payload c none found its = divided h k payload c found its
  divide_or_replay_after h k payload c (some r) found its =
      looked_up_after (divides k payload) (split_row r.target db.splits) replay_unavailable
        Response.split

  pay_or_replay_after :
      (h : String) (k split_id : ℕ) (payload : PaymentInput) (c : Commission)
      (o : Option CommissionRecord)
      → P (pays k split_id payload) (pay_or_replay actor_id key h split_id payload c o db).1
  unfolding pay
  pay_or_replay_after h k split_id payload c none =
      paid_out h k c.id split_id payload (split_of c.id (split_row split_id db.splits)) refl
  pay_or_replay_after h k split_id payload c (some r) =
      looked_up_after (pays k split_id payload) (split_of c.id (split_row split_id db.splits))
        replay_unavailable Response.split

  pub serve_after : (hash : PayloadHash) (r : Request) → P r (serve hash actor_id key r db).1
  unfolding serve create_commission_adjustment record_commission_receipt create_commission_split
      mark_commission_split_paid
  serve_after hash (adjusts k payload) =
      let h = hash.of_adjustment payload in
      elim (Bool-cases (is_zero payload.amount)) [
        | inl nothing ↦ rw nothing (same (adjusts k payload))
        | inr something ↦ rw something (
            with_commission_after (P (adjusts k payload)) k (adjustments_of k) actor_id key h
              (adjust_or_replay actor_id key h payload) db (same (adjusts k payload))
              (adjust_or_replay_after h k payload))
      ]
  serve_after hash (receives k payload) =
      let h = hash.of_receipt payload in
      with_commission_after (P (receives k payload)) k (receipts_of k) actor_id key h
        (receive_or_replay actor_id key h payload) db (same (receives k payload))
        (receive_or_replay_after h k payload)
  serve_after hash (divides k payload) =
      let h = hash.of_split payload in
      with_commission_after (P (divides k payload)) k (splits_of k) actor_id key h
        (divide_or_replay actor_id key h payload) db (same (divides k payload))
        (divide_or_replay_after h k payload)
  serve_after hash (pays k split_id payload) =
      let h = hash.of_payment payload in
      with_commission_after (P (pays k split_id payload)) k (mark_paid_of k split_id) actor_id key h
        (pay_or_replay actor_id key h split_id payload) db (same (pays k split_id payload))
        (λ c o found its. pay_or_replay_after h k split_id payload c o)
