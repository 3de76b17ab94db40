-- ===== src/Carts.antt =====
-- cart-service (services/cart-service/src): the cart of a user, kept in Redis.
pub mod Service
pub mod OneRestaurant
pub mod Invariant
mod Tests
