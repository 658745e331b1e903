-- ===== src/Availability.antt =====
-- Availability of accompanists and children: packages/common/src/availability.ts.
pub mod Hours
pub mod Sorted
pub mod Normal
pub mod Dates
mod Tests
