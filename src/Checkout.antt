-- ===== src/Checkout.antt =====
-- The checkout of class entries and memberships: packages/backend/src/checkout.
pub mod Records
pub mod Repository
pub mod Carts
pub mod Invariant
pub mod Reach
pub mod Idempotence
mod Tests
