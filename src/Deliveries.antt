-- ===== src/Deliveries.antt =====
-- delivery-service (services/delivery-service/src).
pub mod Store
pub mod Dispatch
pub mod Service
pub mod Background
pub mod Evolution
pub mod Soundness
pub mod Ratings
pub mod Tests
