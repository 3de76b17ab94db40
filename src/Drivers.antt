-- ===== src/Drivers.antt =====
-- driver-service (services/driver-service/src): profiles, vehicles, reviews and availability of drivers.
pub mod Store
pub mod Service
pub mod Busy
pub mod Claims
mod Tests
