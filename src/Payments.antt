-- ===== src/Payments.antt =====
-- payment-service (services/payment-service/src).
pub mod Store
pub mod Server
pub mod SideEffects
pub mod Service
pub mod Evolution
pub mod Soundness
mod Tests
