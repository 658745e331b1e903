-- ===== src/Eligibility/Available.antt =====
-- When one line item is available: the check chain of `evaluateItemEligibility` against a
-- description of the conditions.
use festival.Eligibility.Checks.{
  is_target_valid, result, check_duplicate_registration, has_proposed_item_prerequisite,
  items_in_class, same_registration, holds_entitlement, has_entitlement_prerequisite,
  placed_in_class,
}
use festival.Eligibility.Item.{
  unavailable, unless_duplicate, evaluate_open, evaluate_item_eligibility, evaluate_required,
  evaluate_valid_class, required_subtype_of, evaluate_prerequisite, finish_evaluation,
}
use festival.Base.{
  ◌&&◌, not, [], if◌then◌else◌, ℕ, ◌+◌, ◌<◌, ◌≡◌, refl, ◌⊎◌, ◌↔◌, inl, inr, Bool, true, false,
  Option, none, some, List, arith, lookup, nat_eq, any, take, Option-cases,
}
use festival.Entitlements.{FestivalClassConfiguration}
use festival.Eligibility.{
  already_registered, missing_prerequisite, CapacityMetadata, SubtypeDependencyDescriptor,
  available, ProposedPurchaseLineItem, ClassEligibilityResult, EvaluationContext,
}

-- The prerequisite of the class is met, by a confirmed entitlement or another line item.
abbrev pub HasPrerequisite :
    Option ℕ
    → FestivalClassConfiguration
    → ProposedPurchaseLineItem
    → ℕ
    → EvaluationContext
    → Type 0
HasPrerequisite none c item i ctx = Unit
HasPrerequisite (some required) c item i ctx =
    (has_entitlement_prerequisite c required item.child_id ctx ≡ true)
    ⊎ (has_proposed_item_prerequisite c required item.child_id i ctx ≡ true)

-- The class has a place left behind the line items before this one.
abbrev pub HasRoom : Option ℕ → FestivalClassConfiguration → ℕ → EvaluationContext → Type 0
HasRoom none c i ctx = Unit
HasRoom (some capacity) c i ctx =
    placed_in_class c.id ctx.active_entitlements + items_in_class c.id (take i ctx.items) < capacity

-- What has to hold for item `i` of the cart to be available in class `c`.
pub record IsAvailable (c : FestivalClassConfiguration) (item : ProposedPurchaseLineItem) (i : ℕ)
    (ctx : EvaluationContext) : Type 0 where
  pub registration : ctx.is_registration_open ≡ true
  pub known : lookup item.festival_class_id ctx.classes_map ≡ some c
  pub active : c.is_active ≡ true
  pub organization : c.organization_id ≡ ctx.organization_id
  pub festival : c.festival_id ≡ ctx.festival_id
  pub not_held : any (holds_entitlement item) ctx.active_entitlements ≡ false
  pub not_before : any (same_registration item) (take i ctx.items) ≡ false
  pub prerequisite :
      HasPrerequisite
        (required_subtype_of (lookup c.class_subtype_id ctx.subtypes_map))
        c
        item
        i
        ctx
  pub room : HasRoom c.capacity c i ctx

finish_evaluation_iff :
    (c : FestivalClassConfiguration) (item : ProposedPurchaseLineItem) (i : ℕ)
    (ctx : EvaluationContext) (d : Option SubtypeDependencyDescriptor)
    (ds : List SubtypeDependencyDescriptor)
    → ((finish_evaluation c item i ctx d ds).reason_code ≡ available) ↔ HasRoom c.capacity c i ctx
unfolding finish_evaluation
finish_evaluation_iff c item i ctx d ds = elim (Option-cases c.capacity) [
  | inl e ↦ (λ h. ground arith, λ h. ground arith)
  | inr (cap, e) ↦ (λ h. ground arith, λ h. ground arith)
]

-- The branch on the two ways to meet a prerequisite, over any results.
branch_iff :
    (held proposed : Bool) (refused found : ClassEligibilityResult) {Room : Type 0}
    → refused.reason_code ≡ missing_prerequisite
    → (found.reason_code ≡ available) ↔ Room
    → ((if not held && not proposed then refused else found).reason_code ≡ available)
      ↔ (((held ≡ true) ⊎ (proposed ≡ true)) × Room)
branch_iff true proposed refused found r f = (λ h. (inl refl, f.0 h), λ h. f.1 h.1)
branch_iff false true refused found r f = (λ h. (inr refl, f.0 h), λ h. f.1 h.1)
branch_iff false false refused found r f = (λ h. cc, λ h. ground arith)

evaluate_prerequisite_iff :
    (c : FestivalClassConfiguration) (required : ℕ) (item : ProposedPurchaseLineItem) (i : ℕ)
    (ctx : EvaluationContext)
    → ((evaluate_prerequisite c required item i ctx).reason_code ≡ available)
      ↔ (HasPrerequisite (some required) c item i ctx × HasRoom c.capacity c i ctx)
unfolding evaluate_prerequisite result
evaluate_prerequisite_iff c required item i ctx =
    branch_iff (has_entitlement_prerequisite c required item.child_id ctx)
      (has_proposed_item_prerequisite c required item.child_id i ctx) _ _ refl
      (finish_evaluation_iff c item i ctx _ _)

-- The description of a valid class, with registration open.
abbrev Clear :
    FestivalClassConfiguration → ProposedPurchaseLineItem → ℕ → EvaluationContext → Type 0
Clear c item i ctx =
    (any (holds_entitlement item) ctx.active_entitlements ≡ false)
    × (any (same_registration item) (take i ctx.items) ≡ false)
    × HasPrerequisite (required_subtype_of (lookup c.class_subtype_id ctx.subtypes_map)) c item i
        ctx
    × HasRoom c.capacity c i ctx

evaluate_required_iff :
    (required : Option ℕ) (c : FestivalClassConfiguration) (item : ProposedPurchaseLineItem) (i : ℕ)
    (ctx : EvaluationContext)
    → ((evaluate_required required c item i ctx).reason_code ≡ available)
      ↔ (HasPrerequisite required c item i ctx × HasRoom c.capacity c i ctx)
unfolding evaluate_required
evaluate_required_iff none c item i ctx =
    let f : ((finish_evaluation c item i ctx none []).reason_code ≡ available)
        ↔ HasRoom c.capacity c i ctx =
      finish_evaluation_iff c item i ctx none [] in
    (λ h. (tt, f.0 h), λ h. f.1 h.1)
evaluate_required_iff (some required) c item i ctx = evaluate_prerequisite_iff c required item i ctx

-- The chain that ends in `rest`, behind the two checks for duplicates.
clear_iff :
    (held twice : Bool) (r r' rest : ClassEligibilityResult) (m : Option CapacityMetadata)
    {P Q : Type 0}
    → r.reason_code ≡ already_registered
    → r'.reason_code ≡ already_registered
    → (rest.reason_code ≡ available) ↔ (P × Q)
    → ((unless_duplicate
          (if held then some r else if twice then some r' else none)
          m
          rest).reason_code
        ≡ available)
      ↔ ((held ≡ false) × (twice ≡ false) × P × Q)
clear_iff true twice r r' rest none e e' f = (λ h. cc, λ h. cc)
clear_iff true twice r r' rest (some m) e e' f = (λ h. cc, λ h. cc)
clear_iff false true r r' rest none e e' f = (λ h. cc, λ h. cc)
clear_iff false true r r' rest (some m) e e' f = (λ h. cc, λ h. cc)
clear_iff false false r r' rest m e e' f =
    (λ h. (refl, refl, (f.0 h).0, (f.0 h).1), λ h. f.1 (h.2, h.3))

evaluate_valid_class_iff :
    (c : FestivalClassConfiguration) (item : ProposedPurchaseLineItem) (i : ℕ)
    (ctx : EvaluationContext)
    → ((evaluate_valid_class c item i ctx).reason_code ≡ available) ↔ Clear c item i ctx
unfolding evaluate_valid_class check_duplicate_registration result
evaluate_valid_class_iff c item i ctx =
    clear_iff (any (holds_entitlement item) ctx.active_entitlements)
      (any (same_registration item) (take i ctx.items)) _ _ _ _ refl refl
      (evaluate_required_iff _ c item i ctx)

-- A branch whose other side is not available.
if_available :
    (b : Bool) (r u : ClassEligibilityResult)
    → (u.reason_code ≡ available → ⊥)
    → (if b then r else u).reason_code ≡ available
    → (b ≡ true) × (r.reason_code ≡ available)
if_available true r u other h = (refl, h)
if_available false r u other h = absurd (other h)

unless_closed :
    (b : Bool) (r u : ClassEligibilityResult)
    → (u.reason_code ≡ available → ⊥)
    → (if not b then u else r).reason_code ≡ available
    → (b ≡ true) × (r.reason_code ≡ available)
unless_closed true r u other h = (refl, h)
unless_closed false r u other h = absurd (other h)

evaluate_open_only :
    (target : Option FestivalClassConfiguration) (item : ProposedPurchaseLineItem) (i : ℕ)
    (ctx : EvaluationContext)
    → (evaluate_open target item i ctx).reason_code ≡ available
    → (c : FestivalClassConfiguration) × (target ≡ some c)
      × (is_target_valid ctx (some c) ≡ true)
      × Clear c item i ctx
unfolding evaluate_open unavailable result
evaluate_open_only none item i ctx h = cc
evaluate_open_only (some c) item i ctx h =
    let (valid, found) = if_available (is_target_valid ctx (some c)) _ _ (λ e. cc) h in
    (c, refl, valid, (evaluate_valid_class_iff c item i ctx).0 found)

evaluate_open_if :
    (c : FestivalClassConfiguration) (item : ProposedPurchaseLineItem) (i : ℕ)
    (ctx : EvaluationContext)
    → is_target_valid ctx (some c) ≡ true
    → Clear c item i ctx
    → (evaluate_open (some c) item i ctx).reason_code ≡ available
unfolding evaluate_open
evaluate_open_if c item i ctx valid h = rw valid ((evaluate_valid_class_iff c item i ctx).1 h)

is_target_valid_iff :
    (c : FestivalClassConfiguration) (ctx : EvaluationContext)
    → (is_target_valid ctx (some c) ≡ true) ↔ (
        (c.is_active ≡ true)
        × (c.organization_id ≡ ctx.organization_id)
        × (c.festival_id ≡ ctx.festival_id))
is_target_valid_iff c ctx = (λ h. ground arith, λ h. ground arith)

evaluate_item_eligibility_only :
    (item : ProposedPurchaseLineItem) (i : ℕ) (ctx : EvaluationContext)
    → (evaluate_item_eligibility item i ctx).reason_code ≡ available
    → (c : FestivalClassConfiguration) × IsAvailable c item i ctx
unfolding evaluate_item_eligibility result
evaluate_item_eligibility_only item i ctx h =
    let (o, found) = unless_closed ctx.is_registration_open _ _ (λ e. cc) h in
    let (c, e, valid, clear) =
      evaluate_open_only (lookup item.festival_class_id ctx.classes_map) item i ctx found in
    let (active, organization, festival) = (is_target_valid_iff c ctx).0 valid in
    (
      c,
      record {
        registration = o;
        known = e;
        active = active;
        organization = organization;
        festival = festival;
        not_held = clear.0;
        not_before = clear.1;
        prerequisite = clear.2;
        room = clear.3;
      },
    )

evaluate_item_eligibility_if :
    (item : ProposedPurchaseLineItem) (i : ℕ) (ctx : EvaluationContext)
    (c : FestivalClassConfiguration)
    → IsAvailable c item i ctx
    → (evaluate_item_eligibility item i ctx).reason_code ≡ available
unfolding evaluate_item_eligibility
evaluate_item_eligibility_if item i ctx c a =
    simp (a.registration, a.known)
      (evaluate_open_if c item i ctx
        ((is_target_valid_iff c ctx).1 (a.active, a.organization, a.festival))
        (a.not_held, a.not_before, a.prerequisite, a.room))

-- A line item is found available exactly when registration is open, its class is known, active
-- and of this organization and festival, its child neither holds an entitlement of the class in
-- force nor stands earlier in the cart for it, a prerequisite is met where the class's subtype
-- requires one, and the confirmed entitlements and earlier line items of the class leave a place
-- where it has a capacity.
pub evaluate_item_eligibility_iff :
    (item : ProposedPurchaseLineItem) (i : ℕ) (ctx : EvaluationContext)
    → ((evaluate_item_eligibility item i ctx).reason_code ≡ available)
      ↔ ((c : FestivalClassConfiguration) × IsAvailable c item i ctx)
evaluate_item_eligibility_iff item i ctx = (
  evaluate_item_eligibility_only item i ctx,
  λ a. evaluate_item_eligibility_if item i ctx a.0 a.1,
)
