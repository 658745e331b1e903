-- ===== src/Eligibility/Cart.antt =====
-- The evaluation of a whole cart, in packages/common/src/purchase-eligibility.ts: candidate
-- markers, the two modes and `evaluatePurchaseEligibility`.
pub mod Accepted
pub mod Modes
use festival.Base.{
  is_some, ltb, ℕ, zero, suc, Bool, true, false, ◌&&◌, ◌||◌, not, Option, none, some, List, [], ◌∷◌,
  ◌++◌, map, ◌==◌, any, all, length, filter, if◌then◌else◌,
}
use festival.Entitlements.{ClassEntitlement, FestivalClassConfiguration}
use festival.Eligibility.{
  EligibilityReasonCode, available, ProposedPurchaseLineItem, RegistrationCatalogValue,
  ClassEligibilityResult, EvaluationContext, MapOrList, normalize_classes, normalize_subtypes,
}
use festival.Eligibility.Item.{evaluate_item_eligibility}

-- "candidate"
abbrev pub candidate_codes : List ℕ
candidate_codes = b'c' ∷ b'a' ∷ b'n' ∷ b'd' ∷ b'i' ∷ b'd' ∷ b'a' ∷ b't' ∷ b'e' ∷ []

-- `id.startsWith(prefix)`, and what follows the prefix.
unfoldable pub after_prefix : List ℕ → List ℕ → Option (List ℕ)
after_prefix [] id = some id
after_prefix (p ∷ ps) [] = none
after_prefix (p ∷ ps) (c ∷ cs) = let rest = after_prefix ps cs in if p == c then rest else none

-- One of `:`, `_` and `-`, and what follows it.
unfoldable pub after_separator : List ℕ → Option (List ℕ)
after_separator [] = none
after_separator (c ∷ cs) = if c == b':' || c == b'_' || c == b'-' then some cs else none

-- What follows a candidate marker, `none` where the identifier does not begin with one.
unfoldable pub after_marker : List ℕ → Option (List ℕ)
unfolding after_prefix after_separator
after_marker id = elim (after_prefix candidate_codes id) [
  | none ↦ none
  | some rest ↦ after_separator rest
]

abbrev pub has_marker : Option (List ℕ) → Bool
has_marker none = false
has_marker (some id) = is_some (after_marker id)

unfoldable pub is_candidate_line_item : ProposedPurchaseLineItem → Bool
is_candidate_line_item item = item.is_candidate || has_marker item.id

-- The cleaned identifier: the marker is cut off once, and an empty rest is `undefined`.
unfoldable pub cleaned_id : Option (List ℕ) → Option (List ℕ)
unfolding after_marker
cleaned_id none = none
cleaned_id (some id) = elim (after_marker id) [
  | none ↦ some id
  | some rest ↦ elim rest [ [] ↦ none | c ∷ cs ↦ some (c ∷ cs) ]
]

unfoldable pub strip_candidate_marker : ProposedPurchaseLineItem → ProposedPurchaseLineItem
unfolding cleaned_id
strip_candidate_marker item = record item { id = cleaned_id item.id; is_candidate = false }

pub data PurchaseEligibilityMode : Type 0 where
  cart advisory : PurchaseEligibilityMode

-- `is_registration_open` is `none` where the input leaves it out.
pub record EvaluatePurchaseEligibilityInput : Type 0 where
  pub organization_id : ℕ
  pub festival_id : ℕ
  pub items : List ProposedPurchaseLineItem
  pub classes : MapOrList FestivalClassConfiguration
  pub subtypes : MapOrList RegistrationCatalogValue
  pub active_entitlements : List ClassEntitlement
  pub is_registration_open : Option Bool
  pub mode : Option PurchaseEligibilityMode

-- `eligible` and `items` repeat `isEligible` and `results`.
pub record EvaluatePurchaseEligibilityResponse : Type 0 where
  pub is_eligible : Bool
  pub results : List ClassEligibilityResult

-- `input.isRegistrationOpen !== false`.
abbrev pub not_closed : Option Bool → Bool
not_closed (some false) = false
not_closed _ = true

unfoldable pub context_of :
    EvaluatePurchaseEligibilityInput → List ProposedPurchaseLineItem → EvaluationContext
context_of input items = record {
  organization_id = input.organization_id;
  festival_id = input.festival_id;
  is_registration_open = not_closed input.is_registration_open;
  classes_map = normalize_classes input.classes;
  subtypes_map = normalize_subtypes input.subtypes;
  active_entitlements = input.active_entitlements;
  items = items;
}

-- `items.map((item, index) => evaluateItemEligibility(item, index, ctx))`, counting from `i`.
unfoldable pub evaluate_from :
    ℕ → List ProposedPurchaseLineItem → EvaluationContext → List ClassEligibilityResult
evaluate_from i [] ctx = []
evaluate_from i (item ∷ items) ctx =
    evaluate_item_eligibility item i ctx ∷ evaluate_from (suc i) items ctx

abbrev pub is_available_code : EligibilityReasonCode → Bool
is_available_code available = true
is_available_code _ = false

unfoldable pub evaluate_cart_purchase_eligibility :
    EvaluatePurchaseEligibilityInput → EvaluatePurchaseEligibilityResponse
unfolding evaluate_from strip_candidate_marker context_of
evaluate_cart_purchase_eligibility input =
    let cart_items = map strip_candidate_marker input.items in
    let ctx = context_of input cart_items in
    let results = evaluate_from 0 cart_items ctx in
    record {
      is_eligible =
          ctx.is_registration_open
          && all (λ r. is_available_code r.reason_code && r.is_eligible) results;
      results = results;
    }

-- The results of a cart with candidates. `cart_items` are the items that are none, and `i` of
-- them stand before the items that are left. The line items are distinct objects, so
-- `cartItems.indexOf(item)` is that number.
unfoldable pub evaluate_candidates :
    EvaluatePurchaseEligibilityInput
    → List ProposedPurchaseLineItem
    → ℕ
    → List ProposedPurchaseLineItem
    → List ClassEligibilityResult
unfolding context_of
evaluate_candidates input cart_items i [] = []
evaluate_candidates input cart_items i (item ∷ items) =
    let candidate = is_candidate_line_item item in
    let result =
      if candidate
      then evaluate_item_eligibility item (length cart_items)
          (context_of input (cart_items ++ item ∷ []))
      else evaluate_item_eligibility item i (context_of input cart_items) in
    result ∷ evaluate_candidates input cart_items (if candidate then i else suc i) items

-- `results.filter((_, i) => !isCandidateLineItem(input.items[i]))`.
unfoldable pub non_candidates :
    List ProposedPurchaseLineItem → List ClassEligibilityResult → List ClassEligibilityResult
non_candidates [] results = []
non_candidates (item ∷ items) [] = []
non_candidates (item ∷ items) (r ∷ results) =
    let rest = non_candidates items results in
    if is_candidate_line_item item then rest else r ∷ rest

abbrev pub all_available : List ClassEligibilityResult → Bool
all_available = all (λ r. is_available_code r.reason_code)

unfoldable pub evaluate_advisory_candidate_eligibility :
    EvaluatePurchaseEligibilityInput → EvaluatePurchaseEligibilityResponse
unfolding evaluate_from evaluate_candidates non_candidates context_of is_candidate_line_item
evaluate_advisory_candidate_eligibility input =
    let ctx = context_of input input.items in
    let plain = evaluate_from 0 input.items ctx in
    let cart_items = filter (λ item. not (is_candidate_line_item item)) input.items in
    let results = evaluate_candidates input cart_items 0 input.items in
    let kept = non_candidates input.items results in
    if any is_candidate_line_item input.items
    then record {
      is_eligible =
          ctx.is_registration_open
          && (if ltb 0 (length kept) then all_available kept else all_available results);
      results = results;
    }
    else record { is_eligible = ctx.is_registration_open && all_available plain; results = plain }

abbrev is_advisory : Option PurchaseEligibilityMode → Bool
is_advisory (some advisory) = true
is_advisory _ = false

unfoldable pub evaluate_purchase_eligibility :
    EvaluatePurchaseEligibilityInput → EvaluatePurchaseEligibilityResponse
unfolding evaluate_cart_purchase_eligibility evaluate_advisory_candidate_eligibility
evaluate_purchase_eligibility input =
    if is_advisory input.mode
    then evaluate_advisory_candidate_eligibility input
    else evaluate_cart_purchase_eligibility input
