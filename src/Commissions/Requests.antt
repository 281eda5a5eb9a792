-- ===== src/Commissions/Requests.antt =====
-- The requests to the commission routes of app/admin_routes.py.
use moneybee_backend.Base.{ℕ, String}
use moneybee_backend.Commissions.Rows.{
  AdjustmentInput, ReceiptInput, SplitInput, PaymentInput, PayloadHash, Response, CommissionAction,
}
use moneybee_backend.Commissions.Amounts.{create_commission_adjustment, record_commission_receipt}
use moneybee_backend.Commissions.Shares.{create_commission_split, mark_commission_split_paid}

-- a request to one of the four routes
pub data Request : Type 0 where
  adjusts : ℕ → AdjustmentInput → Request
  receives : ℕ → ReceiptInput → Request
  divides : ℕ → SplitInput → Request
  pays : ℕ → ℕ → PaymentInput → Request

-- the commission of a request
abbrev pub commission_of : Request → ℕ
commission_of (adjusts k payload) = k
commission_of (receives k payload) = k
commission_of (divides k payload) = k
commission_of (pays k split_id payload) = k

-- with the caller and the idempotency key
unfoldable pub serve : PayloadHash → String → String → Request → CommissionAction Response
serve hash actor_id key (adjusts k payload) =
    create_commission_adjustment hash actor_id k payload key
serve hash actor_id key (receives k payload) = record_commission_receipt hash actor_id k payload key
serve hash actor_id key (divides k payload) = create_commission_split hash actor_id k payload key
serve hash actor_id key (pays k split_id payload) =
    mark_commission_split_paid hash actor_id k split_id payload key
