-- ===== src/Eligibility/Cart/Modes.antt =====
-- The two modes of `evaluatePurchaseEligibility` of packages/common/src/purchase-eligibility.ts
-- against one another, and what every result holds.
use festival.Eligibility.Checks.{
  has_proposed_item_prerequisite, has_entitlement_prerequisite, check_duplicate_registration,
  result, check_capacity_sold_out,
}
use festival.Eligibility.Item.{
  required_subtype_of, unavailable, evaluate_prerequisite, evaluate_open, evaluate_item_eligibility,
  evaluate_required, finish_evaluation, evaluate_valid_class,
}
use festival.Base.{
  ap, inr, nat_eq, inl, Bool-cases, lookup, ℕ, suc, ◌≡◌, refl, true, false, ◌&&◌, not, Option, none,
  some, List, [], ◌∷◌, arith, map, all, any, filter,
}
use festival.Entitlements.{FestivalClassConfiguration}
use festival.Eligibility.{
  SubtypeDependencyDescriptor, ProposedPurchaseLineItem, ClassEligibilityResult, EvaluationContext,
}
use festival.Eligibility.Cart.{
  cleaned_id, strip_candidate_marker, evaluate_candidates, context_of, all_available,
  is_available_code, is_candidate_line_item, non_candidates, evaluate_item_eligibility,
  evaluate_from, evaluate_advisory_candidate_eligibility, EvaluatePurchaseEligibilityInput,
  evaluate_cart_purchase_eligibility,
}

-- The two flags of a result say whether its code is AVAILABLE, and it names its line item.
pub record IsConsistent (item : ProposedPurchaseLineItem) (r : ClassEligibilityResult)
    : Type 0 where
  pub flags : r.eligible ≡ r.is_eligible
  pub code : r.is_eligible ≡ is_available_code r.reason_code
  pub child : r.child_id ≡ item.child_id
  pub class : r.festival_class_id ≡ item.festival_class_id

finish_evaluation-IsConsistent :
    (c : FestivalClassConfiguration) (item : ProposedPurchaseLineItem) (i : ℕ)
    (ctx : EvaluationContext) (d : Option SubtypeDependencyDescriptor)
    (ds : List SubtypeDependencyDescriptor)
    → IsConsistent item (finish_evaluation c item i ctx d ds)
unfolding finish_evaluation check_capacity_sold_out result
finish_evaluation-IsConsistent c item i ctx d ds = ground arith

evaluate_prerequisite-IsConsistent :
    (c : FestivalClassConfiguration) (required : ℕ) (item : ProposedPurchaseLineItem) (i : ℕ)
    (ctx : EvaluationContext)
    → IsConsistent item (evaluate_prerequisite c required item i ctx)
unfolding evaluate_prerequisite result
evaluate_prerequisite-IsConsistent c required item i ctx =
    elim (Bool-cases (
      not (has_entitlement_prerequisite c required item.child_id ctx)
      && not (has_proposed_item_prerequisite c required item.child_id i ctx))) [
        | inl e ↦ rw e (record { flags = refl; code = refl; child = refl; class = refl })
        | inr e ↦ rw e (finish_evaluation-IsConsistent c item i ctx _ _)
      ]

evaluate_required-IsConsistent :
    (required : Option ℕ) (c : FestivalClassConfiguration) (item : ProposedPurchaseLineItem) (i : ℕ)
    (ctx : EvaluationContext)
    → IsConsistent item (evaluate_required required c item i ctx)
unfolding evaluate_required
evaluate_required-IsConsistent none c item i ctx =
    finish_evaluation-IsConsistent c item i ctx none []
evaluate_required-IsConsistent (some required) c item i ctx =
    evaluate_prerequisite-IsConsistent c required item i ctx

evaluate_valid_class-IsConsistent :
    (c : FestivalClassConfiguration) (item : ProposedPurchaseLineItem) (i : ℕ)
    (ctx : EvaluationContext)
    → IsConsistent item (evaluate_valid_class c item i ctx)
unfolding evaluate_valid_class check_duplicate_registration result
evaluate_valid_class-IsConsistent c item i ctx = ground (
  arith,
  evaluate_required-IsConsistent (required_subtype_of (lookup c.class_subtype_id ctx.subtypes_map))
      c item i ctx,
)

evaluate_open-IsConsistent :
    (target : Option FestivalClassConfiguration) (item : ProposedPurchaseLineItem) (i : ℕ)
    (ctx : EvaluationContext)
    → IsConsistent item (evaluate_open target item i ctx)
unfolding evaluate_open unavailable result
evaluate_open-IsConsistent none item i ctx = ground arith
evaluate_open-IsConsistent (some c) item i ctx =
    ground (arith, evaluate_valid_class-IsConsistent c item i ctx)

-- On every branch the result of a line item names its child and its class, its two flags agree,
-- and they are set exactly when the reason code is AVAILABLE.
pub evaluate_item_eligibility-IsConsistent :
    (item : ProposedPurchaseLineItem) (i : ℕ) (ctx : EvaluationContext)
    → IsConsistent item (evaluate_item_eligibility item i ctx)
unfolding evaluate_item_eligibility result
evaluate_item_eligibility-IsConsistent item i ctx =
    ground
      (arith, evaluate_open-IsConsistent (lookup item.festival_class_id ctx.classes_map) item i ctx)

all_available-flags :
    (i : ℕ) (items : List ProposedPurchaseLineItem) (ctx : EvaluationContext)
    → all (λ r. is_available_code r.reason_code && r.is_eligible) (evaluate_from i items ctx)
      ≡ all_available (evaluate_from i items ctx)
unfolding evaluate_from
all_available-flags i [] ctx = refl
all_available-flags i (item ∷ items) ctx = ground (
  arith,
  evaluate_item_eligibility-IsConsistent item i ctx,
  all_available-flags (suc i) items ctx,
)

strip_unmarked :
    (x : ProposedPurchaseLineItem) → is_candidate_line_item x ≡ false → strip_candidate_marker x ≡ x
unfolding is_candidate_line_item strip_candidate_marker cleaned_id
strip_unmarked x h = ground arith

map-strip_unmarked :
    (xs : List ProposedPurchaseLineItem)
    → any is_candidate_line_item xs ≡ false
    → map strip_candidate_marker xs ≡ xs
map-strip_unmarked [] h = refl
map-strip_unmarked (x ∷ xs) h = ground (arith, strip_unmarked x, map-strip_unmarked xs)

-- Where no line item is marked as a candidate, the advisory evaluation and the evaluation of the
-- cart return the same results and the same verdict.
pub advisory_eq_cart :
    (input : EvaluatePurchaseEligibilityInput)
    → any is_candidate_line_item input.items ≡ false
    → evaluate_advisory_candidate_eligibility input ≡ evaluate_cart_purchase_eligibility input
unfolding evaluate_advisory_candidate_eligibility evaluate_cart_purchase_eligibility
advisory_eq_cart input h = simp (h, map-strip_unmarked input.items h, all_available-flags)

-- The results of the items that are no candidates.
non_candidates-evaluate :
    (input : EvaluatePurchaseEligibilityInput) (cart : List ProposedPurchaseLineItem) (i : ℕ)
    (items : List ProposedPurchaseLineItem)
    → non_candidates items (evaluate_candidates input cart i items)
      ≡ evaluate_from i (filter (λ x. not (is_candidate_line_item x)) items) (context_of input cart)
unfolding non_candidates evaluate_candidates evaluate_from
non_candidates-evaluate input cart i [] = refl
non_candidates-evaluate input cart i (x ∷ items) = elim (Bool-cases (is_candidate_line_item x)) [
  | inl e ↦ rw e (non_candidates-evaluate input cart i items)
  | inr e ↦ rw e (
      ap (◌∷◌ (evaluate_item_eligibility x i (context_of input cart)))
        (non_candidates-evaluate input cart (suc i) items))
]

-- Candidates do not disturb the cart they are proposed for: where a line item is marked as a
-- candidate, the advisory results of the others are those of evaluating them alone, in their order.
pub advisory_keeps_cart :
    (input : EvaluatePurchaseEligibilityInput)
    → any is_candidate_line_item input.items ≡ true
    → let cart = filter (λ x. not (is_candidate_line_item x)) input.items in
      non_candidates input.items (evaluate_advisory_candidate_eligibility input).results
      ≡ evaluate_from 0 cart (context_of input cart)
unfolding evaluate_advisory_candidate_eligibility
advisory_keeps_cart input h = rw h (
    non_candidates-evaluate input (filter (λ x. not (is_candidate_line_item x)) input.items) 0
      input.items)
