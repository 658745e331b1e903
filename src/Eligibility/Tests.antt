-- ===== src/Eligibility/Tests.antt =====
-- Runs of the eligibility check, and the theorems about it at concrete inputs.
use festival.Eligibility.Available.{evaluate_item_eligibility_iff, IsAvailable}
use festival.Eligibility.Checks.{
  others_at, entitlement_satisfies, build_dependency_descriptor, matches_division_and_age,
  any_other_at, item_satisfies, check_capacity_sold_out, has_proposed_item_prerequisite, result,
  has_entitlement_prerequisite, check_duplicate_registration, placed_in_class, items_in_class,
}
use festival.Eligibility.Cart.Modes.{
  advisory_keeps_cart, advisory_eq_cart, evaluate_item_eligibility-IsConsistent, IsConsistent,
}
use festival.Eligibility.Cart.Accepted.{
  accepted_within_capacity, accepted_registers_once, held_by_child, items_of_child,
}
use festival.Base.{
  map, ◌≤◌, ◌↔◌, ℕ, ◌+◌, ◌≡◌, refl, Bool, true, false, none, some, List, [], ◌∷◌, arith,
}
use festival.Entitlements.{ClassEntitlement, FestivalClassConfiguration, confirmed}
use festival.Eligibility.{
  normalize_subtypes, normalize_classes, ProposedPurchaseLineItem, available, sold_out, of_list,
}
use festival.Eligibility.Item.{
  finish_evaluation, evaluate_prerequisite, evaluate_required, evaluate_valid_class, evaluate_open,
  evaluate_item_eligibility,
}
use festival.Eligibility.Cart.{
  evaluate_from, evaluate_advisory_candidate_eligibility, non_candidates,
  evaluate_cart_purchase_eligibility, is_candidate_line_item, context_of,
  EvaluatePurchaseEligibilityInput,
}

-- Class 40 has two places, and class 41, for which subtype 6 requires class 40's subtype 5, has no limit.
abbrev solo : FestivalClassConfiguration
solo = record {
  id = 40;
  organization_id = 1;
  festival_id = 2;
  class_subtype_id = 5;
  division_id = 3;
  minimum_age = 8;
  maximum_age = 12;
  capacity = some 2;
  is_active = true;
}

abbrev concert : FestivalClassConfiguration
concert = record {
  id = 41;
  organization_id = 1;
  festival_id = 2;
  class_subtype_id = 6;
  division_id = 3;
  minimum_age = 8;
  maximum_age = 12;
  capacity = none;
  is_active = true;
}

-- Child 70 holds a place in class 40.
abbrev place : ClassEntitlement
place = record {
  id = 90;
  organization_id = 1;
  festival_id = 2;
  festival_class_id = 40;
  parent_customer_id = 60;
  child_id = 70;
  checkout_intent_id = 80;
  checkout_intent_line_id = none;
  shopify_order_gid = 81;
  shopify_order_line_gid = 82;
  paid_amount_cents = 2500;
  paid_currency_code = 1;
  status = confirmed;
  admitted_cart_reference = none;
  capacity_at_allocation = none;
  placed_count_before_allocation = none;
  created_at = 5;
  updated_at = 5;
}

abbrev line : ℕ → ℕ → Bool → ProposedPurchaseLineItem
line child class candidate = record {
  id = none;
  child_id = child;
  festival_class_id = class;
  is_candidate = candidate;
}

abbrev request : List ProposedPurchaseLineItem → EvaluatePurchaseEligibilityInput
request items = record {
  organization_id = 1;
  festival_id = 2;
  items = items;
  classes = of_list (solo ∷ concert ∷ []);
  subtypes = of_list (record { id = 6; display_name = 600; required_subtype_id = some 5 } ∷ []);
  active_entitlements = place ∷ [];
  is_registration_open = none;
  mode = none;
}

-- Child 71 takes the last place of class 40, and with it the concert; child 70 has its place already.
abbrev accepted : List ProposedPurchaseLineItem
accepted = line 71 41 false ∷ line 71 40 false ∷ line 70 41 false ∷ []

-- Child 72 finds no place left behind child 71.
abbrev crowded : List ProposedPurchaseLineItem
crowded = line 71 40 false ∷ line 72 40 false ∷ []

abbrev proposed : List ProposedPurchaseLineItem
proposed = line 71 40 false ∷ line 72 40 true ∷ []

accepted-is_eligible : (evaluate_cart_purchase_eligibility (request accepted)).is_eligible ≡ true
unfolding evaluate_cart_purchase_eligibility evaluate_item_eligibility evaluate_open
    evaluate_valid_class evaluate_required evaluate_prerequisite finish_evaluation
    check_duplicate_registration has_entitlement_prerequisite has_proposed_item_prerequisite
    item_satisfies any_other_at matches_division_and_age build_dependency_descriptor result
    normalize_classes normalize_subtypes check_capacity_sold_out entitlement_satisfies others_at
accepted-is_eligible = refl

crowded-results :
    map (λ r. r.reason_code) (evaluate_cart_purchase_eligibility (request crowded)).results
    ≡ available ∷ sold_out ∷ []
unfolding evaluate_cart_purchase_eligibility evaluate_item_eligibility evaluate_open
    evaluate_valid_class evaluate_required finish_evaluation check_duplicate_registration result
    normalize_classes normalize_subtypes check_capacity_sold_out
crowded-results = refl

evaluate_item_eligibility_iff_example :
    ((evaluate_item_eligibility
        (line 71 40 false)
        1
        (context_of (request accepted) accepted)).reason_code
      ≡ available)
    ↔ ((c : FestivalClassConfiguration) × IsAvailable c
          (line 71 40 false)
          1
          (context_of (request accepted) accepted))
evaluate_item_eligibility_iff_example =
    evaluate_item_eligibility_iff (line 71 40 false) 1 (context_of (request accepted) accepted)

accepted_within_capacity_example : placed_in_class 40 (place ∷ []) + items_in_class 40 accepted ≤ 2
unfolding normalize_classes items_in_class
accepted_within_capacity_example =
    accepted_within_capacity (request accepted) solo 2 accepted-is_eligible refl refl (omega arith)

accepted_registers_once_example :
    held_by_child 71 40 (place ∷ []) + items_of_child 71 40 accepted ≤ 1
unfolding items_of_child
accepted_registers_once_example =
    accepted_registers_once (request accepted) 71 40 accepted-is_eligible (omega arith)

evaluate_item_eligibility-IsConsistent_example :
    IsConsistent
      (line 72 40 false)
      (evaluate_item_eligibility (line 72 40 false) 1 (context_of (request crowded) crowded))
evaluate_item_eligibility-IsConsistent_example =
    evaluate_item_eligibility-IsConsistent (line 72 40 false) 1
      (context_of (request crowded) crowded)

advisory_eq_cart_example :
    evaluate_advisory_candidate_eligibility (request crowded)
    ≡ evaluate_cart_purchase_eligibility (request crowded)
unfolding is_candidate_line_item
advisory_eq_cart_example = advisory_eq_cart (request crowded) refl

advisory_keeps_cart_example :
    non_candidates proposed (evaluate_advisory_candidate_eligibility (request proposed)).results
    ≡ evaluate_from 0
        (line 71 40 false ∷ [])
        (context_of (request proposed) (line 71 40 false ∷ []))
unfolding is_candidate_line_item
advisory_keeps_cart_example = advisory_keeps_cart (request proposed) refl
