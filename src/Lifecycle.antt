-- ===== src/Lifecycle.antt =====
-- The lifecycle services of app/services.py.
pub mod Status
pub mod Db
mod Tests
pub mod Application
pub mod Funding
pub mod Conditions
pub mod Renewal
