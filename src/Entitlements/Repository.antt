-- ===== src/Entitlements/Repository.antt =====
-- `class InMemoryClassEntitlementRepository` of
-- packages/backend/src/commerce/class-entitlement-repository.ts, with
-- `assertValidClassEntitlementInput` of packages/common/src/entitlements.ts. A text key
-- `organization NUL identifier` is the pair of the two. The capacity lock runs one method at a
-- time, so a method is one step; the identifier of `randomUUID` and the time of the call are
-- arguments. An intent line of `null` or `""` is `none`. A text that is blank and the pattern of a
-- currency code are tests that the methods take.
use festival.Entitlements.{ClassEntitlement, ClassEntitlementStatus, confirmed}
use festival.Base.{
  ◌==◌, if◌then◌else◌, none, inr, inl, some, nat_pair_eq, lookup, nat_eq, insert, Dict, or_else,
  Option, ◌⊎◌, Bool, ℕ,
}

-- `.trim()` is empty, and `/^[A-Z]{3}$/` matches.
pub record TextTests : Type 0 where
  pub is_blank : ℕ → Bool
  pub is_currency_code : ℕ → Bool

-- An amount is `none` where the number is not a non-negative integer.
pub record CreateClassEntitlementInput : Type 0 where
  pub id : Option ℕ
  pub organization_id : ℕ
  pub festival_id : ℕ
  pub festival_class_id : ℕ
  pub parent_customer_id : ℕ
  pub child_id : ℕ
  pub checkout_intent_id : ℕ
  pub checkout_intent_line_id : Option ℕ
  pub shopify_order_gid : ℕ
  pub shopify_order_line_gid : ℕ
  pub paid_amount_cents : Option ℕ
  pub paid_currency_code : ℕ
  pub status : Option ClassEntitlementStatus
  pub admitted_cart_reference : Option ℕ
  pub capacity_at_allocation : Option ℕ
  pub placed_count_before_allocation : Option ℕ
  pub created_at : Option ℕ
  pub updated_at : Option ℕ

-- The errors that a creation throws.
pub data CreateError : Type 0 where
  organization_required festival_required festival_class_required : CreateError
  parent_customer_required child_required checkout_intent_required : CreateError
  shopify_order_required shopify_order_line_required : CreateError
  paid_amount_invalid paid_currency_invalid intent_line_conflict : CreateError

-- The first check that fails, or the amount in cents.
unfoldable pub assert_valid_class_entitlement_input :
    TextTests → CreateClassEntitlementInput → CreateError ⊎ ℕ
assert_valid_class_entitlement_input texts input =
    if texts.is_blank input.organization_id
    then inl organization_required
    else if texts.is_blank input.festival_id
    then inl festival_required
    else if texts.is_blank input.festival_class_id
    then inl festival_class_required
    else if texts.is_blank input.parent_customer_id
    then inl parent_customer_required
    else if texts.is_blank input.child_id
    then inl child_required
    else if texts.is_blank input.checkout_intent_id
    then inl checkout_intent_required
    else if texts.is_blank input.shopify_order_gid
    then inl shopify_order_required
    else if texts.is_blank input.shopify_order_line_gid
    then inl shopify_order_line_required
    else elim input.paid_amount_cents [
      | none ↦ inl paid_amount_invalid
      | some cents ↦
          if texts.is_currency_code input.paid_currency_code
          then inr cents
          else inl paid_currency_invalid
    ]

pub record ClassEntitlementRepository : Type 0 where
  pub entitlements : Dict ℕ ClassEntitlement
  pub by_order_line : Dict (ℕ × ℕ) ℕ
  pub by_intent : Dict (ℕ × ℕ) ℕ
  pub by_intent_line : Dict (ℕ × ℕ) ℕ

-- The record that an index names, where the record is still there.
unfoldable pub indexed :
    ℕ × ℕ → Dict (ℕ × ℕ) ℕ → ClassEntitlementRepository → Option ClassEntitlement
indexed key index repo = elim (lookup key index) [
  | none ↦ none
  | some id ↦ lookup id repo.entitlements
]

unfoldable pub new_class_entitlement : CreateClassEntitlementInput → ℕ → ℕ → ℕ → ClassEntitlement
new_class_entitlement input cents uuid now = record {
  id = or_else input.id uuid;
  organization_id = input.organization_id;
  festival_id = input.festival_id;
  festival_class_id = input.festival_class_id;
  parent_customer_id = input.parent_customer_id;
  child_id = input.child_id;
  checkout_intent_id = input.checkout_intent_id;
  checkout_intent_line_id = input.checkout_intent_line_id;
  shopify_order_gid = input.shopify_order_gid;
  shopify_order_line_gid = input.shopify_order_line_gid;
  paid_amount_cents = cents;
  paid_currency_code = input.paid_currency_code;
  status = or_else input.status confirmed;
  admitted_cart_reference = input.admitted_cart_reference;
  capacity_at_allocation = input.capacity_at_allocation;
  placed_count_before_allocation = input.placed_count_before_allocation;
  created_at = or_else input.created_at now;
  updated_at = or_else input.updated_at now;
}

abbrev pub index_intent_line : ℕ → Option ℕ → ℕ → Dict (ℕ × ℕ) ℕ → Dict (ℕ × ℕ) ℕ
index_intent_line organization_id none id index = index
index_intent_line organization_id (some line) id index = insert (organization_id, line) id index

-- The record and its three index entries.
unfoldable pub store_class_entitlement :
    ClassEntitlement → ClassEntitlementRepository → ClassEntitlementRepository
store_class_entitlement e repo = record {
  entitlements = insert e.id e repo.entitlements;
  by_order_line = insert (e.organization_id, e.shopify_order_line_gid) e.id repo.by_order_line;
  by_intent = insert (e.organization_id, e.checkout_intent_id) e.id repo.by_intent;
  by_intent_line =
      index_intent_line e.organization_id e.checkout_intent_line_id e.id repo.by_intent_line;
}

-- What the index of intent lines says of an input: the record that its line already has.
unfoldable pub fulfilled_intent_line :
    CreateClassEntitlementInput → ClassEntitlementRepository → Option ClassEntitlement
fulfilled_intent_line input repo = elim input.checkout_intent_line_id [
  | none ↦ none
  | some line ↦ indexed (input.organization_id, line) repo.by_intent_line repo
]

-- The end of a creation: the record of the order line, or a new one.
unfoldable pub create_for_order_line :
    CreateClassEntitlementInput
    → ℕ
    → ℕ
    → ℕ
    → ClassEntitlementRepository
    → ClassEntitlementRepository × (CreateError ⊎ ClassEntitlement)
create_for_order_line input cents uuid now repo =
    elim (indexed (input.organization_id, input.shopify_order_line_gid) repo.by_order_line repo) [
      | some e ↦ (repo, inr e)
      | none ↦ (
        store_class_entitlement (new_class_entitlement input cents uuid now) repo,
        inr (new_class_entitlement input cents uuid now),
      )
    ]

unfoldable pub create_class_entitlement :
    TextTests
    → CreateClassEntitlementInput
    → ℕ
    → ℕ
    → ClassEntitlementRepository
    → ClassEntitlementRepository × (CreateError ⊎ ClassEntitlement)
create_class_entitlement texts input uuid now repo =
    elim (assert_valid_class_entitlement_input texts input) [
      | inl e ↦ (repo, inl e)
      | inr cents ↦ elim (fulfilled_intent_line input repo) [
        | some e ↦
            if e.shopify_order_line_gid == input.shopify_order_line_gid
            then (repo, inr e)
            else (repo, inl intent_line_conflict)
        | none ↦ create_for_order_line input cents uuid now repo
      ]
    ]

-- The record, where the organization is its own.
abbrev pub of_organization : ℕ → Option ClassEntitlement → Option ClassEntitlement
of_organization organization_id none = none
of_organization organization_id (some e) =
    if e.organization_id == organization_id then some e else none

unfoldable pub get_class_entitlement : ℕ → ℕ → ClassEntitlementRepository → Option ClassEntitlement
get_class_entitlement organization_id id repo =
    of_organization organization_id (lookup id repo.entitlements)

unfoldable pub find_class_entitlement_by_order_line :
    ℕ → ℕ → ClassEntitlementRepository → Option ClassEntitlement
unfolding get_class_entitlement
find_class_entitlement_by_order_line organization_id shopify_order_line_gid repo =
    elim (lookup (organization_id, shopify_order_line_gid) repo.by_order_line) [
      | none ↦ none
      | some id ↦ get_class_entitlement organization_id id repo
    ]

unfoldable pub find_class_entitlement_by_intent_id :
    ℕ → ℕ → ClassEntitlementRepository → Option ClassEntitlement
unfolding get_class_entitlement
find_class_entitlement_by_intent_id organization_id checkout_intent_id repo =
    elim (lookup (organization_id, checkout_intent_id) repo.by_intent) [
      | none ↦ none
      | some id ↦ get_class_entitlement organization_id id repo
    ]

unfoldable pub find_class_entitlement_by_intent_line_id :
    ℕ → ℕ → ClassEntitlementRepository → Option ClassEntitlement
unfolding get_class_entitlement
find_class_entitlement_by_intent_line_id organization_id checkout_intent_line_id repo =
    elim (lookup (organization_id, checkout_intent_line_id) repo.by_intent_line) [
      | none ↦ none
      | some id ↦ get_class_entitlement organization_id id repo
    ]
