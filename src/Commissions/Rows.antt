-- ===== src/Commissions/Rows.antt =====
-- The rows, payloads and problems of the commission routes of app/admin_routes.py, after app/models.py
-- and app/schemas.py, with `_load_commission_or_404` and `_net_expected_amount`.
use moneybee_backend.Base.{ℕ, ◌+◌, String, Bool, Option, List, [], ◌∷◌, row, ◌==◌, if◌then◌else◌}
use moneybee_backend.Base.Int.{ℤ, pos, ◌+ℤ◌}
use moneybee_backend.Commissions.Cents.{SignedAmount, Amount}
use moneybee_backend.Base.Action.{Action, or_raise}

-- the strings that `Commission.status` takes
pub data CommissionStatus : Type 0 where
  expected partially_received received : CommissionStatus

pub record Commission : Type 0 where
  pub id : ℕ
  pub funding_id : ℕ
  pub expected_amount : ℕ
  pub received_amount : ℕ
  pub status : CommissionStatus

pub record CommissionAdjustment : Type 0 where
  pub id : ℕ
  pub commission_id : ℕ
  pub adjustment_type : String
  pub amount : ℤ
  pub reason : String
  pub created_by : String

-- the strings that `CommissionSplit.status` takes
pub data SplitStatus : Type 0 where
  pending paid : SplitStatus

pub record CommissionSplit : Type 0 where
  pub id : ℕ
  pub commission_id : ℕ
  pub recipient_type : String
  pub recipient_reference : String
  pub percentage : Option ℕ
  pub amount : ℕ
  pub status : SplitStatus
  pub paid_at : Option ℕ
  pub payment_reference : Option String

-- the paths of the four routes, with the ids in them
pub data CommissionRoute : Type 0 where
  adjustments_of receipts_of splits_of : ℕ → CommissionRoute
  mark_paid_of : ℕ → ℕ → CommissionRoute

-- `target` is the one id of the response body.
pub record CommissionRecord : Type 0 where
  pub key : String
  pub actor_id : String
  pub route : CommissionRoute
  pub request_hash : String
  pub response_status : ℕ
  pub target : ℕ

-- the audit rows of the four routes
pub data CommissionAudit : Type 0 where
  adjustment_recorded : String → ℕ → String → SignedAmount → CommissionAudit
  receipt_recorded : String → ℕ → Amount → Option String → Amount → CommissionAudit
  split_created : String → ℕ → String → String → Amount → CommissionAudit
  split_payment_recorded : String → ℕ → ℕ → ℕ → String → CommissionAudit

-- `rounds_up` says whether a column takes the cent above an amount with a rest, or the one below.
pub record CommissionDb : Type 0 where
  pub commissions : List Commission
  pub adjustments : List CommissionAdjustment
  pub splits : List CommissionSplit
  pub records : List CommissionRecord
  pub audit : List CommissionAudit
  pub uuid4 : ℕ → ℕ
  pub generated : ℕ
  pub rounds_up : ℤ → ℕ → Bool

pub record AdjustmentInput : Type 0 where
  pub adjustment_type : String
  pub amount : SignedAmount
  pub reason : String

-- The schemas ask for a positive amount of a receipt and of a split.
pub record ReceiptInput : Type 0 where
  pub amount : Amount
  pub reference : Option String

-- A percentage stands in ten-thousandths, which its column keeps, with the rest below.
pub record SplitInput : Type 0 where
  pub recipient_type : String
  pub recipient_reference : String
  pub percentage : Option Amount
  pub amount : Amount

pub record PaymentInput : Type 0 where
  pub paid_at : ℕ
  pub payment_reference : String

-- the SHA-256 of the JSON of a payload
pub record PayloadHash : Type 0 where
  pub of_adjustment : AdjustmentInput → String
  pub of_receipt : ReceiptInput → String
  pub of_split : SplitInput → String
  pub of_payment : PaymentInput → String

pub data CommissionProblem : Type 0 where
  amount_is_zero commission_not_found payload_conflict replay_unavailable net_not_positive
        receipts_exceed_net splits_exceed_net receipt_exceeds_net split_not_found
        split_not_pending :
      CommissionProblem

-- the row that a route returns
pub data Response : Type 0 where
  adjustment : CommissionAdjustment → Response
  commission : Commission → Response
  split : CommissionSplit → Response

abbrev pub CommissionAction : Type 0 → Type 0
CommissionAction A = Action CommissionDb CommissionProblem A

abbrev pub commission_row : ℕ → List Commission → Option Commission
commission_row = row (λ (c : Commission). c.id)

abbrev pub adjustment_row : ℕ → List CommissionAdjustment → Option CommissionAdjustment
adjustment_row = row (λ (a : CommissionAdjustment). a.id)

abbrev pub split_row : ℕ → List CommissionSplit → Option CommissionSplit
split_row = row (λ (s : CommissionSplit). s.id)

-- `_load_commission_or_404`
abbrev pub load_commission : ℕ → CommissionAction Commission
load_commission k db = or_raise (commission_row k db.commissions) commission_not_found db

-- the sum of the adjustments of a commission
unfoldable pub adjustments_total : ℕ → List CommissionAdjustment → ℤ
adjustments_total k [] = pos 0
adjustments_total k (a ∷ rows) =
    let rest = adjustments_total k rows in if a.commission_id == k then a.amount +ℤ rest else rest

-- `_net_expected_amount`
abbrev pub net_expected_amount : CommissionDb → Commission → ℤ
net_expected_amount db c = pos c.expected_amount +ℤ adjustments_total c.id db.adjustments

-- the sum of the splits of a commission
unfoldable pub split_total : ℕ → List CommissionSplit → ℕ
split_total k [] = 0
split_total k (s ∷ rows) =
    let rest = split_total k rows in if s.commission_id == k then s.amount + rest else rest
