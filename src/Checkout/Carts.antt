-- ===== src/Checkout/Carts.antt =====
-- The carts of `class InMemoryCheckoutRepository` of
-- packages/backend/src/checkout/checkout-repository.ts, and what becomes of an intent. The capacity
-- check of `attachCart`, which runs first and under the lock, is its answer.
use festival.Checkout.Records.{
  failed, checkout_started, needs_review, creating, cart_checkout_started, cart_superseded,
  rejected, cart_ready, CheckoutCartRecord, approved, ready, CheckoutCartStatus,
  CheckoutIntentStatus, AttachCartInput, CheckoutRepository, CheckoutIntentRecord, is_usable,
  has_cart,
}
use festival.Base.{
  inr, ltb, insert, none, inl, false, values, ◌&&◌, Dict, ◌==◌, nat_eq, ◌⊎◌, find?, true, Option,
  Bool, lookup, some, ℕ, if◌then◌else◌,
}

abbrev pub set_status : CheckoutIntentStatus → CheckoutIntentRecord → CheckoutIntentRecord
set_status status intent = record intent { status = status }

abbrev pub set_cart_status : CheckoutCartStatus → CheckoutCartRecord → CheckoutCartRecord
set_cart_status status cart = record cart { status = status }

-- The status of the cart with a reference, where it is there.
unfoldable pub mark_cart :
    Option ℕ → CheckoutCartStatus → Dict ℕ CheckoutCartRecord → Dict ℕ CheckoutCartRecord
mark_cart none status carts = carts
mark_cart (some reference) status carts = elim (lookup reference carts) [
  | none ↦ carts
  | some cart ↦ insert reference (set_cart_status status cart) carts
]

pub data AttachError : Type 0 where
  capacity_failure : ℕ → AttachError
  cannot_accept_cart : AttachError

abbrev pub new_cart : AttachCartInput → ℕ → ℕ → CheckoutCartRecord
new_cart input reference now = record {
  reference = reference;
  shopify_cart_id = input.shopify_cart_id;
  organization_id = input.organization_id;
  customer_id = input.customer_id;
  session_id = input.session_id;
  integration_version = input.integration_version;
  status = cart_ready;
  expires_at = input.expires_at;
  created_at = now;
}

abbrev pub is_creating : CheckoutIntentStatus → Bool
is_creating creating = true
is_creating _ = false

abbrev pub with_cart : ℕ → CheckoutIntentRecord → CheckoutIntentRecord
with_cart reference intent = record intent { cart_reference = some reference; status = ready }

-- `attachCart`, and `markIntentReady`, which is the same. A failed check is its error.
unfoldable pub attach_cart :
    AttachCartInput
    → Option ℕ
    → ℕ
    → ℕ
    → CheckoutRepository
    → CheckoutRepository × (AttachError ⊎ CheckoutCartRecord)
attach_cart input (some failure) reference now repo = (repo, inl (capacity_failure failure))
attach_cart input none reference now repo = elim (lookup input.intent_id repo.intents) [
  | none ↦ (repo, inl cannot_accept_cart)
  | some intent ↦
      if intent.organization_id == input.organization_id && is_creating intent.status
      then (
        record {
          carts = insert reference (new_cart input reference now) repo.carts;
          intents = insert input.intent_id (with_cart reference intent) repo.intents;
        },
        inr (new_cart input reference now),
      )
      else (repo, inl cannot_accept_cart)
]

-- `false` is the error that the intent is not ready.
unfoldable pub mark_checkout_started : ℕ → CheckoutRepository → CheckoutRepository × Bool
mark_checkout_started intent_id repo = elim (lookup intent_id repo.intents) [
  | none ↦ (repo, false)
  | some intent ↦
      if has_cart intent.status
      then (
        record {
          carts = mark_cart intent.cart_reference cart_checkout_started repo.carts;
          intents = insert intent_id (set_status checkout_started intent) repo.intents;
        },
        true,
      )
      else (repo, false)
]

-- `markFailed`, and `markIntentFailed`, which is the same.
unfoldable pub mark_failed : ℕ → CheckoutRepository → CheckoutRepository
mark_failed intent_id repo = elim (lookup intent_id repo.intents) [
  | none ↦ repo
  | some intent ↦ record {
    carts = mark_cart intent.cart_reference cart_superseded repo.carts;
    intents = insert intent_id (set_status failed intent) repo.intents;
  }
]

pub data Resolution : Type 0 where
  approve reject ask_for_review : Resolution

abbrev pub resolved : Resolution → CheckoutIntentStatus
resolved approve = approved
resolved reject = rejected
resolved ask_for_review = needs_review

unfoldable pub resolve_intent : ℕ → Resolution → CheckoutRepository → CheckoutRepository
resolve_intent intent_id resolution repo = elim (lookup intent_id repo.intents) [
  | none ↦ repo
  | some intent ↦ record repo {
    intents = insert intent_id (set_status (resolved resolution) intent) repo.intents;
  }
]

-- The cart, where it is the customer's, not expired and usable.
abbrev pub usable_cart : ℕ → ℕ → ℕ → Option CheckoutCartRecord → Option CheckoutCartRecord
usable_cart organization_id customer_id now none = none
usable_cart organization_id customer_id now (some cart) =
    if cart.organization_id == organization_id
      && cart.customer_id == customer_id
      && ltb now cart.expires_at
      && is_usable cart.status
    then some cart
    else none

unfoldable pub get_cart : ℕ → ℕ → ℕ → ℕ → CheckoutRepository → Option CheckoutCartRecord
get_cart reference organization_id customer_id now repo =
    usable_cart organization_id customer_id now (lookup reference repo.carts)

unfoldable pub find_intent_by_correlation : ℕ → ℕ → CheckoutRepository → Option CheckoutIntentRecord
find_intent_by_correlation organization_id correlation_id repo =
    find?
      (λ intent.
        intent.organization_id == organization_id && intent.correlation_id == correlation_id)
      (values repo.intents)

abbrev pub intent_of : ℕ → Option CheckoutIntentRecord → Option CheckoutIntentRecord
intent_of organization_id none = none
intent_of organization_id (some intent) =
    if intent.organization_id == organization_id then some intent else none

unfoldable pub find_intent_by_id : ℕ → ℕ → CheckoutRepository → Option CheckoutIntentRecord
find_intent_by_id organization_id intent_id repo =
    intent_of organization_id (lookup intent_id repo.intents)
