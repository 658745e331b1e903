-- ===== src/Eligibility.antt =====
-- Whether a cart may be bought: packages/common/src/purchase-eligibility.ts.
-- The identifier of a line item is the list of its character codes, since the code reads its
-- prefix; other identifiers are naturals.
pub mod Checks
pub mod Item
pub mod Available
pub mod Cart
mod Tests
use festival.Base.{
  nat_eq, ℕ, Bool, true, false, ◌&&◌, ◌||◌, not, Option, none, some, List, [], ◌∷◌, Dict, insert,
  ◌==◌, any, count,
}
use festival.Entitlements.{
  ClassEntitlement, ClassEntitlementStatus, confirmed, cancelled, revoked, status_eq,
  ClassAvailabilityStatus, FestivalClassConfiguration,
}

pub data EligibilityReasonCode : Type 0 where
  available already_registered missing_prerequisite registration_closed : EligibilityReasonCode
  class_not_available sold_out : EligibilityReasonCode

-- The texts of the results, one constructor for each template.
pub data Message : Type 0 where
  already_registered_for_class duplicate_in_request capacity_full : Message
  registration_is_closed not_available_or_inactive is_available : Message
  -- the subtype's display name, or its id where the subtype is not known
  missing_subtype : Option ℕ → ℕ → Message

-- `entitlement` and `proposed_item`, with `sourceFestivalClassId` and `sourceLineItemId`.
pub data SatisfiedBy : Type 0 where
  unsatisfied by_entitlement : SatisfiedBy
  by_proposed_item : ℕ → Option (List ℕ) → SatisfiedBy

pub record SubtypeDependencyDescriptor : Type 0 where
  pub required_subtype_id : ℕ
  pub required_subtype_name : Option ℕ
  pub division_id : ℕ
  pub minimum_age : ℕ
  pub maximum_age : ℕ
  pub class_subtype_id : ℕ
  pub festival_class_id : ℕ
  pub satisfied_by : SatisfiedBy

pub record ProposedPurchaseLineItem : Type 0 where
  pub id : Option (List ℕ)
  pub child_id : ℕ
  pub festival_class_id : ℕ
  pub is_candidate : Bool

-- A catalog value: `required_subtype_id` is what `trim` leaves of it, `none` where it is missing
-- or blank.
pub record RegistrationCatalogValue : Type 0 where
  pub id : ℕ
  pub display_name : ℕ
  pub required_subtype_id : Option ℕ

pub record CapacityMetadata : Type 0 where
  pub availability : ClassAvailabilityStatus
  pub capacity : ℕ
  pub placed_count : ℕ

-- `capacity_metadata` holds `availability`, `capacity` and `placedCount`, which come together.
pub record ClassEligibilityResult : Type 0 where
  pub child_id : ℕ
  pub festival_class_id : ℕ
  pub eligible : Bool
  pub is_eligible : Bool
  pub reason_code : EligibilityReasonCode
  pub message : Message
  pub capacity_metadata : Option CapacityMetadata
  pub dependency_descriptor : Option SubtypeDependencyDescriptor
  pub missing_prerequisite : Option SubtypeDependencyDescriptor
  pub satisfied_prerequisites : Option (List SubtypeDependencyDescriptor)
  pub line_item_id : Option (List ℕ)

pub record EvaluationContext : Type 0 where
  pub organization_id : ℕ
  pub festival_id : ℕ
  pub is_registration_open : Bool
  pub classes_map : Dict ℕ FestivalClassConfiguration
  pub subtypes_map : Dict ℕ RegistrationCatalogValue
  pub active_entitlements : List ClassEntitlement
  pub items : List ProposedPurchaseLineItem

-- A `Map`, or an array from which one is made.
pub data MapOrList (V : Type 0) : Type 0 where
  of_map : Dict ℕ V → MapOrList V
  of_list : List V → MapOrList V

insert_classes :
    List FestivalClassConfiguration
    → Dict ℕ FestivalClassConfiguration
    → Dict ℕ FestivalClassConfiguration
insert_classes [] m = m
insert_classes (c ∷ cs) m = insert_classes cs (insert c.id c m)

unfoldable pub normalize_classes :
    MapOrList FestivalClassConfiguration → Dict ℕ FestivalClassConfiguration
unfolding insert_classes
normalize_classes (of_map m) = m
normalize_classes (of_list cs) = insert_classes cs []

insert_subtypes :
    List RegistrationCatalogValue
    → Dict ℕ RegistrationCatalogValue
    → Dict ℕ RegistrationCatalogValue
insert_subtypes [] m = m
insert_subtypes (s ∷ ss) m = insert_subtypes ss (insert s.id s m)

unfoldable pub normalize_subtypes :
    MapOrList RegistrationCatalogValue → Dict ℕ RegistrationCatalogValue
unfolding insert_subtypes
normalize_subtypes (of_map m) = m
normalize_subtypes (of_list ss) = insert_subtypes ss []

unfoldable pub is_active_entitlement : ClassEntitlementStatus → Bool
is_active_entitlement status = not (status_eq status cancelled) && not (status_eq status revoked)

unfoldable pub is_placed_entitlement : ClassEntitlementStatus → Bool
is_placed_entitlement status = status_eq status confirmed

unfoldable pub count_placed_entitlements_for_class : List ClassEntitlement → ℕ → ℕ → ℕ → ℕ
unfolding is_placed_entitlement
count_placed_entitlements_for_class entitlements organization_id festival_id festival_class_id =
    count
      (λ e.
        e.organization_id == organization_id
        && e.festival_id == festival_id
        && e.festival_class_id == festival_class_id
        && is_placed_entitlement e.status)
      entitlements
