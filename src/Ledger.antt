-- ===== src/Ledger.antt =====
-- The double-entry ledger, app/financial_service.py over app/financial_models.py.
pub mod Records
pub mod Access
pub mod Journal
pub mod Setup
pub mod Balance
pub mod Sound
mod Tests
