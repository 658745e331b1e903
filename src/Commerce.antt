-- ===== src/Commerce.antt =====
-- Webhook deliveries, orders and decisions:
-- packages/backend/src/commerce/membership-commerce-repository.ts.
pub mod Records
pub mod Deliveries
pub mod Index
pub mod Reach
pub mod Claims
mod Tests
