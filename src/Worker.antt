-- ===== src/Worker.antt =====
-- The worker of app/worker.py, one module for each kind of work.
pub mod Outbox
pub mod Items
pub mod Scans
pub mod Signing
pub mod Inbox
mod Tests
