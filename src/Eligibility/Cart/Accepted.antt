-- ===== src/Eligibility/Cart/Accepted.antt =====
-- What an accepted cart guarantees: `evaluateCartPurchaseEligibility` of
-- packages/common/src/purchase-eligibility.ts, over the cart as a whole.
use festival.Eligibility.Available.{HasRoom, evaluate_item_eligibility_iff}
use festival.Eligibility.Item.{evaluate_item_eligibility}
use festival.Eligibility.Checks.{
  holds_entitlement, same_registration, placed_in_class, items_in_class,
}
use mathlib.Core.List.{append_assoc}
use festival.Base.{
  any, subst, ◌==◌, count-append, length-append, ap, ℕ, suc, ◌+◌, ◌≤◌, ◌<◌, ◌≡◌, refl, Bool, true,
  false, ◌&&◌, some, List, [], ◌∷◌, ◌++◌, arith, map, count, length, all, take, lookup, nat_eq,
}
use festival.Entitlements.{ClassEntitlement, FestivalClassConfiguration}
use festival.Eligibility.{
  is_active_entitlement, ClassEntitlement, normalize_classes, available, ProposedPurchaseLineItem,
  ClassEligibilityResult, EvaluationContext,
}
use festival.Eligibility.Cart.{
  context_of, strip_candidate_marker, evaluate_from, evaluate_item_eligibility, is_available_code,
  EvaluatePurchaseEligibilityInput, evaluate_cart_purchase_eligibility,
}

-- Every item is available, where the first stands at `i` in the cart.
abbrev pub AllAvailable : ℕ → List ProposedPurchaseLineItem → EvaluationContext → Type 0
AllAvailable i [] ctx = Unit
AllAvailable i (item ∷ items) ctx =
    ((evaluate_item_eligibility item i ctx).reason_code ≡ available)
    × AllAvailable (suc i) items ctx

code_available :
    (r : ClassEligibilityResult) (rest : Bool)
    → ((is_available_code r.reason_code && r.is_eligible) && rest) ≡ true
    → (r.reason_code ≡ available) × (rest ≡ true)
code_available r rest h = ground arith

evaluate_from-AllAvailable :
    (i : ℕ) (items : List ProposedPurchaseLineItem) (ctx : EvaluationContext)
    → all (λ r. is_available_code r.reason_code && r.is_eligible) (evaluate_from i items ctx) ≡ true
    → AllAvailable i items ctx
unfolding evaluate_from
evaluate_from-AllAvailable i [] ctx h = tt
evaluate_from-AllAvailable i (item ∷ items) ctx h =
    let (found, rest) = code_available (evaluate_item_eligibility item i ctx) _ h in
    (found, evaluate_from-AllAvailable (suc i) items ctx rest)

pub take-length {ℓ} : {A : Type ℓ} (xs ys : List A) → take (length xs) (xs ++ ys) ≡ xs
take-length [] ys = refl
take-length (x ∷ xs) ys = ap (◌∷◌ x) (take-length xs ys)

-- The cart that `evaluateItemEligibility` is given.
abbrev pub cart_of : EvaluatePurchaseEligibilityInput → List ProposedPurchaseLineItem
cart_of input = map strip_candidate_marker input.items

pub accepted-AllAvailable :
    (input : EvaluatePurchaseEligibilityInput)
    → (evaluate_cart_purchase_eligibility input).is_eligible ≡ true
    → AllAvailable 0 (cart_of input) (context_of input (cart_of input))
unfolding evaluate_cart_purchase_eligibility
accepted-AllAvailable input h =
    evaluate_from-AllAvailable 0 (cart_of input) (context_of input (cart_of input)) (ground arith)

module _ (ctx : EvaluationContext) (c : FestivalClassConfiguration) (limit : ℕ)
    (known : lookup c.id ctx.classes_map ≡ some c) (limited : c.capacity ≡ some limit) where
  room_of :
      (x : ProposedPurchaseLineItem) (pre rest : List ProposedPurchaseLineItem)
      → ctx.items ≡ pre ++ rest
      → x.festival_class_id ≡ c.id
      → (evaluate_item_eligibility x (length pre) ctx).reason_code ≡ available
      → placed_in_class c.id ctx.active_entitlements + items_in_class c.id pre < limit
  room_of x pre rest e k h =
      let (d, a) = (evaluate_item_eligibility_iff x (length pre) ctx).0 h in
      let same : d ≡ c = ground (arith, a.known) in
      let room : HasRoom c.capacity c (length pre) ctx =
        subst (λ z. HasRoom z.capacity z (length pre) ctx) same a.room in
      let free : HasRoom (some limit) c (length pre) ctx =
        subst (λ z. HasRoom z c (length pre) ctx) limited room in
      let ahead : take (length pre) ctx.items ≡ pre = rw e (take-length pre rest) in
      omega (arith, ap (items_in_class c.id) ahead)

  capacity_from :
      (pre rest : List ProposedPurchaseLineItem)
      → ctx.items ≡ pre ++ rest
      → AllAvailable (length pre) rest ctx
      → 0 < items_in_class c.id rest
      → placed_in_class c.id ctx.active_entitlements
          + items_in_class c.id pre
          + items_in_class c.id rest
        ≤ limit
  unfolding items_in_class
  capacity_from pre [] e h p = absurd (omega arith)
  capacity_from pre (x ∷ rest) e h p = grind (
    arith,
    room_of x pre (x ∷ rest) e,
    capacity_from (pre ++ x ∷ []) rest,
    length-append pre (x ∷ []),
    count-append (λ (prev : ProposedPurchaseLineItem). prev.festival_class_id == c.id) pre (x ∷ []),
    append_assoc pre (x ∷ []) rest,
  )

items_in_class-strip :
    (k : ℕ) (items : List ProposedPurchaseLineItem)
    → items_in_class k (map strip_candidate_marker items) ≡ items_in_class k items
unfolding items_in_class strip_candidate_marker
items_in_class-strip k [] = refl
items_in_class-strip k (x ∷ items) = ground (arith, items_in_class-strip k items)

-- A cart that `evaluatePurchaseEligibility` accepts in cart mode never oversells a class: the
-- confirmed entitlements of a class with a capacity and the line items of the cart for it are
-- together no more than the capacity, if the cart has a line item for it.
pub accepted_within_capacity :
    (input : EvaluatePurchaseEligibilityInput) (c : FestivalClassConfiguration) (limit : ℕ)
    → (evaluate_cart_purchase_eligibility input).is_eligible ≡ true
    → lookup c.id (normalize_classes input.classes) ≡ some c
    → c.capacity ≡ some limit
    → 0 < items_in_class c.id input.items
    → placed_in_class c.id input.active_entitlements + items_in_class c.id input.items ≤ limit
unfolding context_of
accepted_within_capacity input c limit h known limited p =
    let ctx : EvaluationContext = context_of input (cart_of input) in
    omega (
      arith,
      items_in_class-strip c.id input.items,
      capacity_from ctx c limit known limited [] (cart_of input) refl
          (accepted-AllAvailable input h),
    )

-- The line items of a child for a class, and its entitlements of the class that are in force.
unfoldable pub items_of_child : ℕ → ℕ → List ProposedPurchaseLineItem → ℕ
items_of_child child k = count (λ x. x.child_id == child && x.festival_class_id == k)

unfoldable pub held_by_child : ℕ → ℕ → List ClassEntitlement → ℕ
held_by_child child k =
    count (λ e. e.child_id == child && e.festival_class_id == k && is_active_entitlement e.status)

items_of_child-strip :
    (child k : ℕ) (items : List ProposedPurchaseLineItem)
    → items_of_child child k (map strip_candidate_marker items) ≡ items_of_child child k items
unfolding items_of_child strip_candidate_marker
items_of_child-strip child k [] = refl
items_of_child-strip child k (x ∷ items) = ground (arith, items_of_child-strip child k items)

none_held :
    (x : ProposedPurchaseLineItem) (es : List ClassEntitlement)
    → any (holds_entitlement x) es ≡ false
    → held_by_child x.child_id x.festival_class_id es ≡ 0
unfolding holds_entitlement held_by_child
none_held x [] h = refl
none_held x (e ∷ es) h = ground (arith, none_held x es)

none_before :
    (x : ProposedPurchaseLineItem) (xs : List ProposedPurchaseLineItem)
    → any (same_registration x) xs ≡ false
    → items_of_child x.child_id x.festival_class_id xs ≡ 0
unfolding same_registration items_of_child
none_before x [] h = refl
none_before x (y ∷ xs) h = ground (arith, none_before x xs)

module _ (ctx : EvaluationContext) (child k : ℕ) where
  single_of :
      (x : ProposedPurchaseLineItem) (pre rest : List ProposedPurchaseLineItem)
      → ctx.items ≡ pre ++ rest
      → x.child_id ≡ child
      → x.festival_class_id ≡ k
      → (evaluate_item_eligibility x (length pre) ctx).reason_code ≡ available
      → (held_by_child child k ctx.active_entitlements ≡ 0) × (items_of_child child k pre ≡ 0)
  single_of x pre rest e ec ek h =
      let (d, a) = (evaluate_item_eligibility_iff x (length pre) ctx).0 h in
      let ahead : take (length pre) ctx.items ≡ pre = rw e (take-length pre rest) in
      let free : any (same_registration x) pre ≡ false =
        subst (λ z. any (same_registration x) z ≡ false) ahead a.not_before in
      rw (← ec, ← ek) (none_held x ctx.active_entitlements a.not_held, none_before x pre free)

  single_from :
      (pre rest : List ProposedPurchaseLineItem)
      → ctx.items ≡ pre ++ rest
      → AllAvailable (length pre) rest ctx
      → 0 < items_of_child child k rest
      → held_by_child child k ctx.active_entitlements
          + items_of_child child k pre
          + items_of_child child k rest
        ≤ 1
  unfolding items_of_child
  single_from pre [] e h p = absurd (omega arith)
  single_from pre (x ∷ rest) e h p = grind (
    arith,
    single_of x pre (x ∷ rest) e,
    single_from (pre ++ x ∷ []) rest,
    length-append pre (x ∷ []),
    count-append (λ (y : ProposedPurchaseLineItem). y.child_id == child && y.festival_class_id == k)
        pre (x ∷ []),
    append_assoc pre (x ∷ []) rest,
  )

-- An accepted cart registers a child for a class once at most: if the cart has a line item of the
-- child for the class, then it has just one, and the child holds no entitlement of the class in force.
pub accepted_registers_once :
    (input : EvaluatePurchaseEligibilityInput) (child k : ℕ)
    → (evaluate_cart_purchase_eligibility input).is_eligible ≡ true
    → 0 < items_of_child child k input.items
    → held_by_child child k input.active_entitlements + items_of_child child k input.items ≤ 1
unfolding context_of
accepted_registers_once input child k h p =
    let ctx : EvaluationContext = context_of input (cart_of input) in
    omega (
      arith,
      items_of_child-strip child k input.items,
      single_from ctx child k [] (cart_of input) refl (accepted-AllAvailable input h),
    )
