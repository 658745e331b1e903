-- ===== src/Volunteers.antt =====
-- Volunteer shifts: packages/backend/src/volunteers.
pub mod Records
pub mod Repository
pub mod Booking
pub mod Listing
pub mod Invariant
pub mod Deletion
pub mod Exclusive
pub mod Reach
pub mod Total
mod Tests
