-- ===== src/Registration.antt =====
-- Dropping, transferring and promoting registrations: packages/backend/src/registration.
pub mod Records
pub mod Changes
pub mod Capacity
pub mod Refunds
pub mod Service
pub mod Operations
pub mod Transfer
pub mod Completed
pub mod Detached
pub mod Room
pub mod Seats
pub mod Drops
pub mod Conserved
pub mod Dropped
pub mod Transfers
pub mod Order
mod Tests
mod DropTests
