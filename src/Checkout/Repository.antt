-- ===== src/Checkout/Repository.antt =====
-- The intents of `class InMemoryCheckoutRepository` of
-- packages/backend/src/checkout/checkout-repository.ts, with `buildIntentLineRecords` of
-- checkout-line-helpers.ts. The identifiers of `randomUUID` and the time of the call are arguments:
-- those of the lines are a function of the line's place.
use festival.Checkout.Records.{
  of_type, intent_ready, failed, intent_created, creating, in_progress, membership, class_entry,
  intent_expired, intent_failed, CheckoutCartRecord, CheckoutIntentType,
  CheckoutIntentLineItemRecord, CreateCheckoutIntentInput, CheckoutIntentOutcome,
  CreateCheckoutIntentLineInput, CheckoutRepository, CheckoutIntentRecord, is_processing, is_usable,
  has_cart,
}
use festival.Base.{
  suc, ltb, insert, [], ◌∷◌, none, false, values, ◌&&◌, ◌==◌, nat_eq, or_else, any, find?, leb,
  true, Option, Bool, lookup, some, List, ℕ, if◌then◌else◌,
}

-- The intent of an idempotency key.
unfoldable pub has_key : ℕ → ℕ → ℕ → ℕ → CheckoutIntentRecord → Bool
has_key organization_id customer_id session_id idempotency_key intent =
    intent.organization_id == organization_id
    && intent.customer_id == customer_id
    && intent.session_id == session_id
    && intent.idempotency_key == idempotency_key

abbrev pub cart_at : Option ℕ → CheckoutRepository → Option CheckoutCartRecord
cart_at none repo = none
cart_at (some reference) repo = lookup reference repo.carts

abbrev pub ready_with : CheckoutIntentRecord → ℕ → Option CheckoutCartRecord → CheckoutIntentOutcome
ready_with intent now none = intent_failed
ready_with intent now (some cart) =
    if has_cart intent.status && ltb now cart.expires_at && is_usable cart.status
    then intent_ready intent cart
    else intent_failed

unfoldable pub outcome_for : CheckoutIntentRecord → ℕ → CheckoutRepository → CheckoutIntentOutcome
outcome_for intent now repo =
    if leb intent.expires_at now then intent_expired else elim intent.status [
      | creating ↦ in_progress
      | failed ↦ intent_failed
      | _ ↦ ready_with intent now (cart_at intent.cart_reference repo)
    ]

unfoldable pub get_outcome : ℕ → ℕ → ℕ → ℕ → ℕ → CheckoutRepository → Option CheckoutIntentOutcome
get_outcome organization_id customer_id session_id idempotency_key now repo =
    elim (find? (has_key organization_id customer_id session_id idempotency_key)
      (values repo.intents)) [ none ↦ none | some intent ↦ some (outcome_for intent now repo) ]

-- The intent is one of the customer's that is under way at a time.
unfoldable pub is_processing_at : ℕ → ℕ → ℕ → CheckoutIntentRecord → Bool
is_processing_at organization_id customer_id now intent =
    intent.organization_id == organization_id
    && intent.customer_id == customer_id
    && is_processing intent.status
    && ltb now intent.expires_at

unfoldable pub has_processing_intent : ℕ → ℕ → ℕ → CheckoutRepository → Bool
has_processing_intent organization_id customer_id now repo =
    any (is_processing_at organization_id customer_id now) (values repo.intents)

abbrev pub line_of :
    CheckoutIntentRecord
    → (ℕ → ℕ)
    → ℕ
    → CreateCheckoutIntentLineInput
    → CheckoutIntentLineItemRecord
line_of intent line_uuid index line = record {
  id = or_else line.id (line_uuid index);
  checkout_intent_id = intent.id;
  line_index = or_else line.line_index index;
  line_type = or_else line.line_type (of_type class_entry);
  festival_class_id = line.festival_class_id;
  child_id = line.child_id;
  offering_id = line.offering_id;
  shopify_product_gid = line.shopify_product_gid;
  shopify_variant_gid = line.shopify_variant_gid;
  amount = line.amount;
  currency_code = line.currency_code;
  division_id = line.division_id;
  division_name_snapshot = line.division_name_snapshot;
  created_at = intent.created_at;
}

abbrev pub lines_from :
    CheckoutIntentRecord
    → (ℕ → ℕ)
    → ℕ
    → List CreateCheckoutIntentLineInput
    → List CheckoutIntentLineItemRecord
lines_from intent line_uuid index [] = []
lines_from intent line_uuid index (line ∷ lines) =
    line_of intent line_uuid index line ∷ lines_from intent line_uuid (suc index) lines

unfoldable pub build_intent_line_records :
    CheckoutIntentRecord
    → (ℕ → ℕ)
    → List CreateCheckoutIntentLineInput
    → List CheckoutIntentLineItemRecord
build_intent_line_records intent line_uuid (line ∷ lines) =
    lines_from intent line_uuid 0 (line ∷ lines)
build_intent_line_records intent line_uuid [] =
    record {
      id = line_uuid 0;
      checkout_intent_id = intent.id;
      line_index = 0;
      line_type = of_type intent.intent_type;
      festival_class_id = intent.festival_class_id;
      child_id = intent.child_id;
      offering_id = intent.offering_id;
      shopify_product_gid = intent.shopify_product_gid;
      shopify_variant_gid = intent.shopify_variant_gid;
      amount = intent.amount;
      currency_code = intent.currency_code;
      division_id = intent.division_id;
      division_name_snapshot = intent.division_name_snapshot;
      created_at = intent.created_at;
    }
    ∷ []

pub record IntentCalls : Type 0 where
  pub id : ℕ
  pub correlation_id : ℕ
  pub line_uuid : ℕ → ℕ
  pub now : ℕ

abbrev pub is_class_entry : Option CheckoutIntentType → Bool
is_class_entry (some class_entry) = true
is_class_entry _ = false

abbrev pub intent_without_lines : CreateCheckoutIntentInput → IntentCalls → CheckoutIntentRecord
intent_without_lines input calls = record {
  id = calls.id;
  correlation_id = calls.correlation_id;
  organization_id = input.organization_id;
  customer_id = input.customer_id;
  session_id = input.session_id;
  idempotency_key = input.idempotency_key;
  intent_type = or_else input.intent_type membership;
  offering_id = input.offering_id;
  has_entitlement_class = input.has_entitlement_class;
  duration_days = input.duration_days;
  festival_class_id = input.festival_class_id;
  child_id = input.child_id;
  shopify_product_gid = input.shopify_product_gid;
  shopify_variant_gid = input.shopify_variant_gid;
  has_policy_version = input.has_policy_version;
  division_id = input.division_id;
  division_name_snapshot = input.division_name_snapshot;
  staff_access_consent = input.staff_access_consent;
  amount = input.amount;
  currency_code = input.currency_code;
  cart_reference = none;
  status = creating;
  expires_at = input.expires_at;
  created_at = calls.now;
  has_line_identity_protocol = is_class_entry input.intent_type;
  lines = [];
}

unfoldable pub new_intent : CreateCheckoutIntentInput → IntentCalls → CheckoutIntentRecord
unfolding build_intent_line_records
new_intent input calls =
    let intent = intent_without_lines input calls in
    record intent { lines = build_intent_line_records intent calls.line_uuid input.lines }

unfoldable pub create_intent :
    CreateCheckoutIntentInput
    → IntentCalls
    → CheckoutRepository
    → CheckoutRepository × CheckoutIntentOutcome
create_intent input calls repo =
    elim (find?
      (has_key input.organization_id input.customer_id input.session_id input.idempotency_key)
      (values repo.intents)) [
        | some intent ↦ (repo, outcome_for intent calls.now repo)
        | none ↦
            if has_processing_intent input.organization_id input.customer_id calls.now repo
            then (repo, in_progress)
            else (
              record repo { intents = insert calls.id (new_intent input calls) repo.intents },
              intent_created (new_intent input calls),
            )
      ]
