-- ===== src/Shared.antt =====
-- The code that the services share (shared/src).
pub mod Errors
pub mod Enums
pub mod Text
pub mod Events
pub mod Lifecycle
pub mod Outbox
pub mod Paging
pub mod Numbers
pub mod Mobile
pub mod Table
pub mod Idempotency
