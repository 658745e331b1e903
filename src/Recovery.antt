-- ===== src/Recovery.antt =====
-- The recovery of a checkout that a customer left: packages/backend/src/checkout.
pub mod Records
pub mod Repository
pub mod Invariant
pub mod Steps
pub mod Single
pub mod Once
mod Tests
