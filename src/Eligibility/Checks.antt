-- ===== src/Eligibility/Checks.antt =====
-- The checks that one line item goes through, in
-- packages/common/src/purchase-eligibility.ts.
use festival.Base.{
  nat_eq, ℕ, suc, ◌+◌, Bool, false, ◌&&◌, ◌||◌, not, Option, none, some, List, [], ◌∷◌, lookup,
  ◌==◌, leb, any, count, take, if◌then◌else◌,
}
use festival.Entitlements.{
  ClassEntitlement, confirmed, status_eq, FestivalClassConfiguration, open_class, waitlist,
}
use festival.Eligibility.{
  EligibilityReasonCode, already_registered, sold_out, Message, already_registered_for_class,
  duplicate_in_request, capacity_full, unsatisfied, SubtypeDependencyDescriptor,
  ProposedPurchaseLineItem, CapacityMetadata, ClassEligibilityResult, EvaluationContext,
  is_active_entitlement, is_placed_entitlement,
}

unfoldable pub matches_division_and_age :
    FestivalClassConfiguration → FestivalClassConfiguration → Bool
matches_division_and_age candidate target =
    candidate.division_id == target.division_id
    && candidate.minimum_age == target.minimum_age
    && candidate.maximum_age == target.maximum_age

-- A class that is known, is of the required subtype and fits the target.
abbrev pub class_satisfies :
    FestivalClassConfiguration → ℕ → Option FestivalClassConfiguration → Bool
class_satisfies target required none = false
class_satisfies target required (some c) =
    c.class_subtype_id == required && matches_division_and_age c target

-- The test on one entitlement in `hasEntitlementPrerequisite`.
unfoldable pub entitlement_satisfies :
    FestivalClassConfiguration → ℕ → ℕ → EvaluationContext → ClassEntitlement → Bool
entitlement_satisfies target required child_id ctx entitlement =
    entitlement.organization_id == ctx.organization_id
    && entitlement.festival_id == ctx.festival_id
    && entitlement.child_id == child_id
    && status_eq entitlement.status confirmed
    && class_satisfies target required (lookup entitlement.festival_class_id ctx.classes_map)

unfoldable pub has_entitlement_prerequisite :
    FestivalClassConfiguration → ℕ → ℕ → EvaluationContext → Bool
has_entitlement_prerequisite target required child_id ctx =
    any (entitlement_satisfies target required child_id ctx) ctx.active_entitlements

-- A class that is known, active and of this festival.
abbrev pub is_target_valid : EvaluationContext → Option FestivalClassConfiguration → Bool
is_target_valid ctx none = false
is_target_valid ctx (some c) =
    c.is_active && c.organization_id == ctx.organization_id && c.festival_id == ctx.festival_id

-- The test on another line item in `hasProposedItemPrerequisite`, which the loop over the
-- satisfied prerequisites repeats.
unfoldable pub item_satisfies :
    FestivalClassConfiguration → ℕ → ℕ → EvaluationContext → ProposedPurchaseLineItem → Bool
item_satisfies target required child_id ctx other =
    let other_class = lookup other.festival_class_id ctx.classes_map in
    other.child_id == child_id
    && is_target_valid ctx other_class
    && class_satisfies target required other_class

-- `items.filter((item, i) => i !== index && p(item))`, counting from `i`.
unfoldable pub others_at :
    (ProposedPurchaseLineItem → Bool)
    → ℕ
    → ℕ
    → List ProposedPurchaseLineItem
    → List ProposedPurchaseLineItem
others_at p index i [] = []
others_at p index i (x ∷ xs) =
    let rest = others_at p index (suc i) xs in if not (i == index) && p x then x ∷ rest else rest

-- `items.some((item, i) => i !== index && p(item))`, counting from `i`.
unfoldable pub any_other_at :
    (ProposedPurchaseLineItem → Bool) → ℕ → ℕ → List ProposedPurchaseLineItem → Bool
any_other_at p index i [] = false
any_other_at p index i (x ∷ xs) = (not (i == index) && p x) || any_other_at p index (suc i) xs

unfoldable pub has_proposed_item_prerequisite :
    FestivalClassConfiguration → ℕ → ℕ → ℕ → EvaluationContext → Bool
has_proposed_item_prerequisite target required child_id item_index ctx =
    any_other_at (item_satisfies target required child_id ctx) item_index 0 ctx.items

unfoldable pub build_dependency_descriptor :
    FestivalClassConfiguration → ℕ → EvaluationContext → SubtypeDependencyDescriptor
build_dependency_descriptor target required ctx = record {
  required_subtype_id = required;
  required_subtype_name = elim (lookup required ctx.subtypes_map) [
    | none ↦ none
    | some s ↦ some s.display_name
  ];
  division_id = target.division_id;
  minimum_age = target.minimum_age;
  maximum_age = target.maximum_age;
  class_subtype_id = target.class_subtype_id;
  festival_class_id = target.id;
  satisfied_by = unsatisfied;
}

-- `item.id ? { lineItemId: item.id } : {}`: the empty text is left out.
unfoldable pub line_item_id : ProposedPurchaseLineItem → Option (List ℕ)
line_item_id item = elim item.id [
  | none ↦ none
  | some s ↦ elim s [ [] ↦ none | c ∷ cs ↦ some (c ∷ cs) ]
]

-- The object that the branches return, with what they share.
unfoldable pub result :
    ProposedPurchaseLineItem
    → Bool
    → EligibilityReasonCode
    → Message
    → Option CapacityMetadata
    → ClassEligibilityResult
unfolding line_item_id
result item eligible reason_code message metadata = record {
  child_id = item.child_id;
  festival_class_id = item.festival_class_id;
  eligible = eligible;
  is_eligible = eligible;
  reason_code = reason_code;
  message = message;
  capacity_metadata = metadata;
  dependency_descriptor = none;
  missing_prerequisite = none;
  satisfied_prerequisites = none;
  line_item_id = line_item_id item;
}

-- The child of the item holds an entitlement of the class that is still in force.
unfoldable pub holds_entitlement : ProposedPurchaseLineItem → ClassEntitlement → Bool
unfolding is_active_entitlement
holds_entitlement item e =
    e.child_id == item.child_id
    && e.festival_class_id == item.festival_class_id
    && is_active_entitlement e.status

unfoldable pub same_registration : ProposedPurchaseLineItem → ProposedPurchaseLineItem → Bool
same_registration item prev =
    prev.child_id == item.child_id && prev.festival_class_id == item.festival_class_id

-- `none` where no registration is there already.
unfoldable pub check_duplicate_registration :
    ProposedPurchaseLineItem → ℕ → EvaluationContext → Option ClassEligibilityResult
unfolding result holds_entitlement same_registration
check_duplicate_registration item item_index ctx =
    if any (holds_entitlement item) ctx.active_entitlements
    then some (result item false already_registered already_registered_for_class none)
    else if any (same_registration item) (take item_index ctx.items)
    then some (result item false already_registered duplicate_in_request none)
    else none

unfoldable pub placed_in_class : ℕ → List ClassEntitlement → ℕ
unfolding is_placed_entitlement
placed_in_class class_id =
    count (λ e. e.festival_class_id == class_id && is_placed_entitlement e.status)

unfoldable pub get_class_capacity_metadata :
    FestivalClassConfiguration → EvaluationContext → Option CapacityMetadata
unfolding placed_in_class
get_class_capacity_metadata target ctx =
    let active_count = placed_in_class target.id ctx.active_entitlements in
    elim target.capacity [
      | none ↦ none
      | some capacity ↦ some (record {
        availability = if leb capacity 0 || leb capacity active_count then waitlist else open_class;
        capacity = capacity;
        placed_count = active_count;
      })
    ]

unfoldable pub items_in_class : ℕ → List ProposedPurchaseLineItem → ℕ
items_in_class class_id = count (λ prev. prev.festival_class_id == class_id)

unfoldable pub check_capacity_sold_out :
    FestivalClassConfiguration
    → ProposedPurchaseLineItem
    → ℕ
    → EvaluationContext
    → Option ClassEligibilityResult
unfolding result get_class_capacity_metadata items_in_class
check_capacity_sold_out target item item_index ctx =
    let items_ahead_count = items_in_class target.id (take item_index ctx.items) in
    elim (get_class_capacity_metadata target ctx) [
      | none ↦ none
      | some m ↦
          if leb m.capacity 0 || leb m.capacity (m.placed_count + items_ahead_count)
          then some (
              result item false sold_out capacity_full
                (some (record m { availability = waitlist })))
          else none
    ]
