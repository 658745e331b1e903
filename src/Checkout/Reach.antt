-- ===== src/Checkout/Reach.antt =====
-- What holds after every sequence of calls of the repository of
-- packages/backend/src/checkout/checkout-repository.ts, as time passes.
use festival.Checkout.Invariant.{
  new_intent-IsExclusive, write_intent-IsExclusive, no_checkouts-IsExclusive, IsExclusive,
  no_checkouts,
}
use festival.Checkout.Repository.{has_processing_intent, has_key, IntentCalls, create_intent}
use festival.Checkout.Carts.{
  new_cart, with_cart, is_creating, mark_cart, resolved, set_status, Resolution, attach_cart,
  mark_checkout_started, mark_failed, resolve_intent,
}
use festival.Checkout.Records.{
  cart_superseded, cart_checkout_started, checkout_started, failed, has_cart,
  CreateCheckoutIntentInput, AttachCartInput, CheckoutRepository,
}
use festival.Base.{
  insert, ◌&&◌, arith, ◌==◌, values, Bool-cases, find?, nat_eq, inr, none, inl, some, lookup,
  Option, Option-cases, ℕ, ◌≡◌, ◌≤◌,
}

pub create_intent-IsExclusive :
    (clock : ℕ) (input : CreateCheckoutIntentInput) (calls : IntentCalls)
    (repo : CheckoutRepository)
    → clock ≤ calls.now
    → lookup calls.id repo.intents ≡ none
    → IsExclusive clock repo
    → IsExclusive calls.now (create_intent input calls repo).0
unfolding create_intent
create_intent-IsExclusive clock input calls repo later new v =
    let known =
      find? (has_key input.organization_id input.customer_id input.session_id input.idempotency_key)
        (values repo.intents) in
    let waits : IsExclusive calls.now repo = record {
      keyed = v.keyed;
      one_processing = λ o c t h. v.one_processing o c t (omega (arith, later, h));
      one_key = v.one_key;
    } in
    elim (Option-cases known) [
      | inr (intent, n) ↦ rw (create_intent, n) waits
      | inl n ↦
          elim (Bool-cases
            (has_processing_intent input.organization_id input.customer_id calls.now repo)) [
              | inl p ↦ rw (create_intent, n, p) waits
              | inr p ↦
                  rw (create_intent, n, p)
                    (new_intent-IsExclusive clock input calls repo later new n p v)
            ]
    ]

pub attach_cart-IsExclusive :
    (clock : ℕ) (input : AttachCartInput) (failure : Option ℕ) (reference now : ℕ)
    → (repo : CheckoutRepository) → IsExclusive clock repo
    → IsExclusive clock (attach_cart input failure reference now repo).0
unfolding attach_cart
attach_cart-IsExclusive clock input (some failure) reference now repo v = v
attach_cart-IsExclusive clock input none reference now repo v =
    elim (Option-cases (lookup input.intent_id repo.intents)) [
      | inl n ↦ rw (attach_cart, n) v
      | inr (intent, n) ↦
          elim (Bool-cases
            (intent.organization_id == input.organization_id && is_creating intent.status)) [
              | inr q ↦ rw (attach_cart, n, q) v
              | inl q ↦
                  rw (attach_cart, n, q)
                    (write_intent-IsExclusive clock input.intent_id intent
                      (with_cart reference intent)
                      (insert reference (new_cart input reference now) repo.carts) repo n
                      (ground (arith, q)) v)
            ]
    ]

pub mark_checkout_started-IsExclusive :
    (clock intent_id : ℕ) (repo : CheckoutRepository)
    → IsExclusive clock repo
    → IsExclusive clock (mark_checkout_started intent_id repo).0
unfolding mark_checkout_started
mark_checkout_started-IsExclusive clock intent_id repo v =
    elim (Option-cases (lookup intent_id repo.intents)) [
      | inl n ↦ rw (mark_checkout_started, n) v
      | inr (intent, n) ↦ elim (Bool-cases (has_cart intent.status)) [
        | inr q ↦ rw (mark_checkout_started, n, q) v
        | inl q ↦
            rw (mark_checkout_started, n, q)
              (write_intent-IsExclusive clock intent_id intent (set_status checkout_started intent)
                (mark_cart intent.cart_reference cart_checkout_started repo.carts) repo n
                (ground (arith, q)) v)
      ]
    ]

pub mark_failed-IsExclusive :
    (clock intent_id : ℕ) (repo : CheckoutRepository)
    → IsExclusive clock repo
    → IsExclusive clock (mark_failed intent_id repo)
unfolding mark_failed
mark_failed-IsExclusive clock intent_id repo v =
    elim (Option-cases (lookup intent_id repo.intents)) [
      | inl n ↦ rw (mark_failed, n) v
      | inr (intent, n) ↦
          rw (mark_failed, n)
            (write_intent-IsExclusive clock intent_id intent (set_status failed intent)
              (mark_cart intent.cart_reference cart_superseded repo.carts) repo n (ground arith) v)
    ]

pub resolve_intent-IsExclusive :
    (clock intent_id : ℕ) (resolution : Resolution) (repo : CheckoutRepository)
    → IsExclusive clock repo
    → IsExclusive clock (resolve_intent intent_id resolution repo)
unfolding resolve_intent
resolve_intent-IsExclusive clock intent_id resolution repo v =
    elim (Option-cases (lookup intent_id repo.intents)) [
      | inl n ↦ rw (resolve_intent, n) v
      | inr (intent, n) ↦
          rw (resolve_intent, n)
            (write_intent-IsExclusive clock intent_id intent
              (set_status (resolved resolution) intent) repo.carts repo n (ground arith) v)
    ]

-- The repositories that calls reach from an empty one, with the time of the last creation.
pub data Reach : ℕ → CheckoutRepository → Type 0 where
  start : Reach 0 no_checkouts
  created :
      {clock : ℕ} {repo : CheckoutRepository} (input : CreateCheckoutIntentInput)
      (calls : IntentCalls)
      → clock ≤ calls.now
      → lookup calls.id repo.intents ≡ none
      → Reach clock repo
      → Reach calls.now (create_intent input calls repo).0
  attached :
      {clock : ℕ} {repo : CheckoutRepository} (input : AttachCartInput) (failure : Option ℕ)
      (reference now : ℕ)
      → Reach clock repo
      → Reach clock (attach_cart input failure reference now repo).0
  started :
      {clock : ℕ} {repo : CheckoutRepository} (intent_id : ℕ)
      → Reach clock repo
      → Reach clock (mark_checkout_started intent_id repo).0
  marked_failed :
      {clock : ℕ} {repo : CheckoutRepository} (intent_id : ℕ)
      → Reach clock repo
      → Reach clock (mark_failed intent_id repo)
  resolved_as :
      {clock : ℕ} {repo : CheckoutRepository} (intent_id : ℕ) (resolution : Resolution)
      → Reach clock repo
      → Reach clock (resolve_intent intent_id resolution repo)

-- After every sequence of calls, where creations come in the order of time and are given new
-- identifiers: from the last creation on, a customer has one intent under way at most (being
-- created, ready or started, and not expired), an idempotency key has one intent at most, and
-- intents are stored under their identifiers.
pub Reach-IsExclusive :
    {clock : ℕ} {repo : CheckoutRepository} → Reach clock repo → IsExclusive clock repo
Reach-IsExclusive start = no_checkouts-IsExclusive
Reach-IsExclusive (created input calls later new r) =
    create_intent-IsExclusive _ input calls _ later new (Reach-IsExclusive r)
Reach-IsExclusive (attached input failure reference now r) =
    attach_cart-IsExclusive _ input failure reference now _ (Reach-IsExclusive r)
Reach-IsExclusive (started intent_id r) =
    mark_checkout_started-IsExclusive _ intent_id _ (Reach-IsExclusive r)
Reach-IsExclusive (marked_failed intent_id r) =
    mark_failed-IsExclusive _ intent_id _ (Reach-IsExclusive r)
Reach-IsExclusive (resolved_as intent_id resolution r) =
    resolve_intent-IsExclusive _ intent_id resolution _ (Reach-IsExclusive r)
