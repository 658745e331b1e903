-- ===== src/Entitlements.antt =====
-- Class entitlements: the shared types of packages/common/src/entitlements.ts and
-- packages/common/src/organization.ts. Identifiers, Shopify ids, timestamps and currency codes are
-- only compared, so they are naturals (an ISO timestamp of `toISOString` has a fixed width, and
-- its order as a text is its order in time); amounts, ages and capacities are naturals.
pub mod Repository
pub mod Updates
pub mod Creation
pub mod Counting
mod Tests
use festival.Base.{ℕ, ◌-◌, Bool, true, false, Option, leb, ltb, if◌then◌else◌}

pub data ClassEntitlementStatus : Type 0 where
  confirmed waitlisted cancelled revoked : ClassEntitlementStatus

abbrev pub status_eq : ClassEntitlementStatus → ClassEntitlementStatus → Bool
status_eq confirmed confirmed = true
status_eq waitlisted waitlisted = true
status_eq cancelled cancelled = true
status_eq revoked revoked = true
status_eq _ _ = false

pub record ClassEntitlement : Type 0 where
  pub id : ℕ
  pub organization_id : ℕ
  pub festival_id : ℕ
  pub festival_class_id : ℕ
  pub parent_customer_id : ℕ
  pub child_id : ℕ
  pub checkout_intent_id : ℕ
  pub checkout_intent_line_id : Option ℕ
  pub shopify_order_gid : ℕ
  pub shopify_order_line_gid : ℕ
  pub paid_amount_cents : ℕ
  pub paid_currency_code : ℕ
  pub status : ClassEntitlementStatus
  pub admitted_cart_reference : Option ℕ
  pub capacity_at_allocation : Option ℕ
  pub placed_count_before_allocation : Option ℕ
  pub created_at : ℕ
  pub updated_at : ℕ

pub data ClassAvailabilityStatus : Type 0 where
  open_class waitlist : ClassAvailabilityStatus

pub record ClassCapacityStatus : Type 0 where
  pub capacity : ℕ
  pub placed_count : ℕ
  pub remaining_spots : ℕ
  pub is_over_capacity : Bool
  pub availability : ClassAvailabilityStatus

-- `Math.max(0, capacity - placedCount)` is subtraction that stops at 0.
unfoldable pub evaluate_class_capacity_status : ℕ → ℕ → ClassCapacityStatus
evaluate_class_capacity_status capacity placed_count = record {
  capacity = capacity;
  placed_count = placed_count;
  remaining_spots = capacity - placed_count;
  is_over_capacity = ltb capacity placed_count;
  availability = if leb capacity placed_count then waitlist else open_class;
}

-- A class of a festival, with the fields that the modelled code reads.
pub record FestivalClassConfiguration : Type 0 where
  pub id : ℕ
  pub organization_id : ℕ
  pub festival_id : ℕ
  pub class_subtype_id : ℕ
  pub division_id : ℕ
  pub minimum_age : ℕ
  pub maximum_age : ℕ
  -- `none` where the code finds `undefined` or `null`
  pub capacity : Option ℕ
  pub is_active : Bool
