-- ===== src/Orders.antt =====
-- order-service (services/order-service/src): the data of the service and the steps of its handlers
-- stand in the modules below.
pub mod Pricing
pub mod Rules
pub mod Outcome
pub mod Store
pub mod Server
pub mod UpdateStatus
pub mod Checkout
pub mod Steps
pub mod Schedule
pub mod History
pub mod Log
pub mod Privacy
pub mod Keys
pub mod Retry
pub mod Listing
pub mod Summary
pub mod Endings
mod Tests
