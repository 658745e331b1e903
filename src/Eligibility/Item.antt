-- ===== src/Eligibility/Item.antt =====
-- `evaluateItemEligibility` of packages/common/src/purchase-eligibility.ts, in three parts.
use festival.Eligibility.Checks.{
  is_target_valid, item_satisfies, build_dependency_descriptor, others_at,
  has_proposed_item_prerequisite, check_capacity_sold_out, has_entitlement_prerequisite, result,
  check_duplicate_registration, get_class_capacity_metadata,
}
use festival.Base.{
  nat_eq, map, ℕ, Bool, true, false, ◌&&◌, not, Option, none, some, List, [], ◌∷◌, lookup,
  if◌then◌else◌,
}
use festival.Entitlements.{FestivalClassConfiguration}
use festival.Eligibility.{
  available, missing_prerequisite, registration_closed, class_not_available, registration_is_closed,
  not_available_or_inactive, is_available, missing_subtype, by_entitlement, by_proposed_item,
  SubtypeDependencyDescriptor, ProposedPurchaseLineItem, RegistrationCatalogValue, CapacityMetadata,
  ClassEligibilityResult, EvaluationContext,
}

-- The loop that lists what satisfies the prerequisite.
unfoldable pub satisfied_list :
    SubtypeDependencyDescriptor
    → Bool
    → List ProposedPurchaseLineItem
    → List SubtypeDependencyDescriptor
satisfied_list descriptor by_held others =
    let proposed =
      map
        (λ other. record descriptor {
          satisfied_by = by_proposed_item other.festival_class_id other.id;
        })
        others in
    if by_held then record descriptor { satisfied_by = by_entitlement } ∷ proposed else proposed

-- `satisfiedPrerequisites` is set only where the list is not empty.
abbrev pub unless_empty :
    List SubtypeDependencyDescriptor → Option (List SubtypeDependencyDescriptor)
unless_empty [] = none
unless_empty (d ∷ ds) = some (d ∷ ds)

-- The end of `evaluateItemEligibility`: the capacity check and the result of an available class.
unfoldable pub finish_evaluation :
    FestivalClassConfiguration
    → ProposedPurchaseLineItem
    → ℕ
    → EvaluationContext
    → Option SubtypeDependencyDescriptor
    → List SubtypeDependencyDescriptor
    → ClassEligibilityResult
unfolding check_capacity_sold_out result get_class_capacity_metadata
finish_evaluation target item item_index ctx descriptor satisfied =
    let found = result item true available is_available (get_class_capacity_metadata target ctx) in
    elim (check_capacity_sold_out target item item_index ctx) [
      | some r ↦ r
      | none ↦ record found {
        dependency_descriptor = descriptor;
        satisfied_prerequisites = unless_empty satisfied;
      }
    ]

-- The branch of `evaluateItemEligibility` under `if (requiredSubtypeId)`.
unfoldable pub evaluate_prerequisite :
    FestivalClassConfiguration
    → ℕ
    → ProposedPurchaseLineItem
    → ℕ
    → EvaluationContext
    → ClassEligibilityResult
evaluate_prerequisite target required item item_index ctx =
    let descriptor = build_dependency_descriptor target required ctx in
    let by_held = has_entitlement_prerequisite target required item.child_id ctx in
    let by_proposed = has_proposed_item_prerequisite target required item.child_id item_index ctx in
    let refused =
      result item false missing_prerequisite
        (missing_subtype descriptor.required_subtype_name required)
        (get_class_capacity_metadata target ctx) in
    let others =
      others_at (item_satisfies target required item.child_id ctx) item_index 0 ctx.items in
    if not by_held && not by_proposed
    then record refused {
      dependency_descriptor = some descriptor;
      missing_prerequisite = some descriptor;
    }
    else finish_evaluation target item item_index ctx (some descriptor)
        (satisfied_list descriptor by_held (if by_proposed then others else []))

-- `subtypesMap.get(...)?.requiredSubtypeId?.trim()`.
abbrev pub required_subtype_of : Option RegistrationCatalogValue → Option ℕ
required_subtype_of none = none
required_subtype_of (some s) = s.required_subtype_id

-- What follows the check for duplicates, by the subtype that the class requires.
unfoldable pub evaluate_required :
    Option ℕ
    → FestivalClassConfiguration
    → ProposedPurchaseLineItem
    → ℕ
    → EvaluationContext
    → ClassEligibilityResult
evaluate_required none target item item_index ctx =
    finish_evaluation target item item_index ctx none []
evaluate_required (some required) target item item_index ctx =
    evaluate_prerequisite target required item item_index ctx

-- `duplicateResult` with the capacity metadata of the class.
abbrev pub with_metadata : ClassEligibilityResult → Option CapacityMetadata → ClassEligibilityResult
with_metadata r none = r
with_metadata r (some m) = record r { capacity_metadata = some m }

abbrev pub unless_duplicate :
    Option ClassEligibilityResult
    → Option CapacityMetadata
    → ClassEligibilityResult
    → ClassEligibilityResult
unless_duplicate none metadata rest = rest
unless_duplicate (some d) metadata rest = with_metadata d metadata

-- `evaluateItemEligibility` of a class that is known and valid, while registration is open.
unfoldable pub evaluate_valid_class :
    FestivalClassConfiguration
    → ProposedPurchaseLineItem
    → ℕ
    → EvaluationContext
    → ClassEligibilityResult
evaluate_valid_class target item item_index ctx =
    unless_duplicate (check_duplicate_registration item item_index ctx)
      (get_class_capacity_metadata target ctx)
      (evaluate_required (required_subtype_of (lookup target.class_subtype_id ctx.subtypes_map))
        target item item_index ctx)

abbrev pub metadata_of_valid :
    Bool → Option FestivalClassConfiguration → EvaluationContext → Option CapacityMetadata
metadata_of_valid true (some c) ctx = get_class_capacity_metadata c ctx
metadata_of_valid _ _ ctx = none

unfoldable pub unavailable : ProposedPurchaseLineItem → ClassEligibilityResult
unavailable item = result item false class_not_available not_available_or_inactive none

-- `evaluateItemEligibility` while registration is open.
unfoldable pub evaluate_open :
    Option FestivalClassConfiguration
    → ProposedPurchaseLineItem
    → ℕ
    → EvaluationContext
    → ClassEligibilityResult
evaluate_open none item item_index ctx = unavailable item
evaluate_open (some c) item item_index ctx =
    if is_target_valid ctx (some c)
    then evaluate_valid_class c item item_index ctx
    else unavailable item

unfoldable pub evaluate_item_eligibility :
    ProposedPurchaseLineItem → ℕ → EvaluationContext → ClassEligibilityResult
evaluate_item_eligibility item item_index ctx =
    let target = lookup item.festival_class_id ctx.classes_map in
    if not ctx.is_registration_open
    then result item false registration_closed registration_is_closed
        (metadata_of_valid (is_target_valid ctx target) target ctx)
    else evaluate_open target item item_index ctx
