-- ===== src/Commissions.antt =====
-- Commissions of funded applications: `create_commission_adjustment`, `record_commission_receipt`,
-- `create_commission_split` and `mark_commission_split_paid` of app/admin_routes.py.
pub mod Cents
pub mod Rows
pub mod Records
pub mod Amounts
pub mod Shares
pub mod Requests
pub mod Account
pub mod Whole
pub mod Totals
pub mod Cases
pub mod Serving
pub mod Steps
pub mod Refinement
pub mod Stored
pub mod Again
pub mod Replays
pub mod First
pub mod Payouts
mod Tests
