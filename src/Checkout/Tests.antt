-- ===== src/Checkout/Tests.antt =====
-- Runs of the repository of packages/backend/src/checkout/checkout-repository.ts, and the witnesses.
use festival.Checkout.Idempotence.{create_intent_again}
use festival.Checkout.Repository.{get_outcome, create_intent, IntentCalls}
use festival.Checkout.Carts.{mark_failed, attach_cart, mark_checkout_started}
use festival.Checkout.Records.{
  CheckoutIntentOutcome, class_entry, in_progress, CreateCheckoutIntentInput, AttachCartInput,
  CheckoutRepository,
}
use festival.Checkout.Reach.{start, created, attached, started, Reach, Reach-IsExclusive}
use festival.Checkout.Invariant.{no_checkouts, IsExclusive}
use festival.Base.{nat_eq, [], ◌⊎◌, arith, ◌∷◌, false, none, values, ◌+◌, some, map, ℕ, refl, ◌≡◌}

abbrev order : ℕ → CreateCheckoutIntentInput
order key = record {
  organization_id = 1;
  customer_id = 2;
  session_id = 3;
  idempotency_key = key;
  intent_type = some class_entry;
  offering_id = none;
  has_entitlement_class = false;
  duration_days = none;
  festival_class_id = some 4;
  child_id = some 5;
  shopify_product_gid = 6;
  shopify_variant_gid = 7;
  has_policy_version = false;
  division_id = none;
  division_name_snapshot = none;
  staff_access_consent = false;
  amount = 900;
  currency_code = 8;
  expires_at = 500;
  lines = [];
}

abbrev calls : ℕ → ℕ → IntentCalls
calls id now = record { id = id; correlation_id = id + 1000; line_uuid = λ n. n + 2000; now = now }

abbrev ordered : CheckoutRepository
ordered = (create_intent (order 20) (calls 10 100) no_checkouts).0

abbrev cart : AttachCartInput
cart = record {
  intent_id = 10;
  shopify_cart_id = 30;
  organization_id = 1;
  customer_id = 2;
  session_id = 3;
  integration_version = 1;
  expires_at = 500;
}

abbrev paying : CheckoutRepository
paying = (mark_checkout_started 10 (attach_cart cart none 40 110 ordered).0).0

-- Another request waits while one is under way, and is let in when it has failed.
second_waits : (create_intent (order 21) (calls 11 120) paying).1 ≡ in_progress
unfolding create_intent mark_checkout_started attach_cart
    festival.Checkout.Repository.has_processing_intent festival.Checkout.Repository.new_intent
    festival.Checkout.Repository.has_key festival.Checkout.Repository.is_processing_at
second_waits = refl

second_after_failure :
    map
      (λ i. i.id)
      (values (create_intent (order 21) (calls 11 120) (mark_failed 10 paying)).0.intents)
    ≡ 10 ∷ 11 ∷ []
unfolding create_intent mark_failed mark_checkout_started attach_cart
    festival.Checkout.Repository.has_processing_intent festival.Checkout.Repository.new_intent
    festival.Checkout.Repository.has_key festival.Checkout.Repository.is_processing_at
second_after_failure = refl

paying_reached : Reach 100 paying
paying_reached =
    started 10
      (attached cart none 40 110 (created (order 20) (calls 10 100) (omega arith) refl start))

Reach-IsExclusive_example : IsExclusive 100 paying
Reach-IsExclusive_example = Reach-IsExclusive paying_reached

create_intent_again_example :
    let repo' = (create_intent (order 20) (calls 10 100) no_checkouts).0 in
    let outcome = get_outcome 1 2 3 20 120 repo' in
    ((o : CheckoutIntentOutcome) × (outcome ≡ some o)
      × (create_intent (order 20) (calls 11 120) repo' ≡ (repo', o)))
    ⊎ ((outcome ≡ none)
        × (repo' ≡ no_checkouts)
        × ((create_intent (order 20) (calls 10 100) no_checkouts).1 ≡ in_progress))
create_intent_again_example =
    create_intent_again (order 20) (calls 10 100) (calls 11 120) no_checkouts refl
