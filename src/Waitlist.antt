-- ===== src/Waitlist.antt =====
-- The waitlist of a class: packages/backend/src/waitlist.
pub mod Records
pub mod Repository
pub mod Invariant
pub mod Membership
pub mod Idempotence
pub mod Continued
pub mod Interleaved
pub mod Overlap
mod Tests
