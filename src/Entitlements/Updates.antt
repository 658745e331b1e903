-- ===== src/Entitlements/Updates.antt =====
-- The queries and updates of `class InMemoryClassEntitlementRepository` of
-- packages/backend/src/commerce/class-entitlement-repository.ts.
use festival.Entitlements.{ClassEntitlement, ClassEntitlementStatus, status_eq, confirmed}
use festival.Entitlements.Repository.{ClassEntitlementRepository}
use festival.Base.{
  insert, if◌then◌else◌, contains, any, filter, leb, some, nat_eq, ◌&&◌, true, values, none, sort,
  lookup, ◌==◌, or_else, count, Option, List, Bool, ℕ,
}

pub record ClassEntitlementFilter : Type 0 where
  pub organization_id : Option ℕ
  pub festival_id : Option ℕ
  pub festival_class_id : Option ℕ
  pub festival_class_ids : Option (List ℕ)
  pub parent_customer_id : Option ℕ
  pub child_id : Option ℕ
  pub child_ids : Option (List ℕ)
  pub status : Option ClassEntitlementStatus

-- The filter of one organization, class and status.
abbrev pub class_filter : ℕ → ℕ → ClassEntitlementStatus → ClassEntitlementFilter
class_filter organization_id class_id status = record {
  organization_id = some organization_id;
  festival_id = none;
  festival_class_id = some class_id;
  festival_class_ids = none;
  parent_customer_id = none;
  child_id = none;
  child_ids = none;
  status = some status;
}

-- A condition that is absent lets everything through.
abbrev pub matches_id : Option ℕ → ℕ → Bool
matches_id none n = true
matches_id (some m) n = n == m

abbrev pub matches_ids : Option (List ℕ) → ℕ → Bool
matches_ids none n = true
matches_ids (some ids) n = contains n ids

abbrev pub matches_status : Option ClassEntitlementStatus → ClassEntitlementStatus → Bool
matches_status none s = true
matches_status (some t) s = status_eq s t

unfoldable pub passes : ClassEntitlementFilter → ClassEntitlement → Bool
passes filter_by e =
    matches_id filter_by.organization_id e.organization_id
    && matches_id filter_by.festival_id e.festival_id
    && matches_id filter_by.festival_class_id e.festival_class_id
    && matches_ids filter_by.festival_class_ids e.festival_class_id
    && matches_id filter_by.parent_customer_id e.parent_customer_id
    && matches_id filter_by.child_id e.child_id
    && matches_ids filter_by.child_ids e.child_id
    && matches_status filter_by.status e.status

-- Newest first.
unfoldable pub list_class_entitlements :
    ClassEntitlementFilter → ClassEntitlementRepository → List ClassEntitlement
list_class_entitlements filter_by repo =
    sort (λ a b. leb b.created_at a.created_at)
      (filter (passes filter_by) (values repo.entitlements))

-- The record is a confirmed entitlement of the class.
unfoldable pub is_confirmed_in : ℕ → ℕ → ClassEntitlement → Bool
is_confirmed_in organization_id festival_class_id e =
    e.organization_id == organization_id
    && e.festival_class_id == festival_class_id
    && status_eq e.status confirmed

unfoldable pub count_confirmed_class_entitlements : ℕ → ℕ → ClassEntitlementRepository → ℕ
count_confirmed_class_entitlements organization_id festival_class_id repo =
    count (is_confirmed_in organization_id festival_class_id) (values repo.entitlements)

pub record EntitlementUpdates : Type 0 where
  pub festival_class_id : Option ℕ
  pub status : Option ClassEntitlementStatus
  pub expected_status : Option (List ClassEntitlementStatus)

-- `expectedStatus ?? updates.expectedStatus`
abbrev pub expected_condition :
    Option (List ClassEntitlementStatus) → EntitlementUpdates → Option (List ClassEntitlementStatus)
expected_condition none updates = updates.expected_status
expected_condition (some expected) updates = some expected

-- `expected.includes(record.status)`, where an expectation is given.
abbrev pub is_expected : Option (List ClassEntitlementStatus) → ClassEntitlementStatus → Bool
is_expected none s = true
is_expected (some expected) s = any (λ t. status_eq t s) expected

abbrev pub apply_updates : EntitlementUpdates → ℕ → ClassEntitlement → ClassEntitlement
apply_updates updates now e = record e {
  status = or_else updates.status e.status;
  festival_class_id = or_else updates.festival_class_id e.festival_class_id;
  updated_at = now;
}

-- The assignments to the fields of the object that the map holds: its place in the map stays. One
-- expected status is a list of one.
unfoldable pub update_class_entitlement :
    ℕ
    → ℕ
    → EntitlementUpdates
    → Option (List ClassEntitlementStatus)
    → ℕ
    → ClassEntitlementRepository
    → ClassEntitlementRepository × Option ClassEntitlement
update_class_entitlement organization_id id updates expected now repo =
    elim (lookup id repo.entitlements) [
      | none ↦ (repo, none)
      | some e ↦
          if e.organization_id == organization_id
            && is_expected (expected_condition expected updates) e.status
          then (
            record repo {
              entitlements = insert id (apply_updates updates now e) repo.entitlements;
            },
            some (apply_updates updates now e),
          )
          else (repo, none)
    ]

unfoldable pub update_class_entitlement_status :
    ℕ
    → ℕ
    → ClassEntitlementStatus
    → Option (List ClassEntitlementStatus)
    → ℕ
    → ClassEntitlementRepository
    → ClassEntitlementRepository × Option ClassEntitlement
update_class_entitlement_status organization_id id status expected now repo =
    update_class_entitlement organization_id id
      (record { festival_class_id = none; status = some status; expected_status = none }) expected
      now repo
