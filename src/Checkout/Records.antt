-- ===== src/Checkout/Records.antt =====
-- The records of packages/backend/src/checkout/checkout-repository.ts. Identifiers, Shopify ids,
-- amounts and keys are texts that are only compared, so they are naturals; a time is its
-- milliseconds.
use festival.Base.{ℕ, Option, Bool, Dict, List, true, false}

pub data CheckoutCartStatus : Type 0 where
  cart_ready cart_checkout_started cart_expired cart_superseded : CheckoutCartStatus

pub data CheckoutIntentStatus : Type 0 where
  creating ready checkout_started failed expired superseded : CheckoutIntentStatus
  approved rejected needs_review : CheckoutIntentStatus

pub data CheckoutIntentType : Type 0 where
  membership class_entry : CheckoutIntentType

-- The `lineType` of a line is a text: one of the two types, or another.
pub data LineType : Type 0 where
  of_type : CheckoutIntentType → LineType
  other_type : ℕ → LineType

pub record CheckoutCartRecord : Type 0 where
  pub reference : ℕ
  pub shopify_cart_id : ℕ
  pub organization_id : ℕ
  pub customer_id : ℕ
  pub session_id : ℕ
  pub integration_version : ℕ
  pub status : CheckoutCartStatus
  pub expires_at : ℕ
  pub created_at : ℕ

pub record CheckoutIntentLineItemRecord : Type 0 where
  pub id : ℕ
  pub checkout_intent_id : ℕ
  pub line_index : ℕ
  pub line_type : LineType
  pub festival_class_id : Option ℕ
  pub child_id : Option ℕ
  pub offering_id : Option ℕ
  pub shopify_product_gid : ℕ
  pub shopify_variant_gid : ℕ
  pub amount : ℕ
  pub currency_code : ℕ
  pub division_id : Option ℕ
  pub division_name_snapshot : Option ℕ
  pub created_at : ℕ

-- `entitlementClass` and `policyVersion` have one value each, or none. The protocol marker is there
-- for class entries.
pub record CheckoutIntentRecord : Type 0 where
  pub id : ℕ
  pub correlation_id : ℕ
  pub organization_id : ℕ
  pub customer_id : ℕ
  pub session_id : ℕ
  pub idempotency_key : ℕ
  pub intent_type : CheckoutIntentType
  pub offering_id : Option ℕ
  pub has_entitlement_class : Bool
  pub duration_days : Option ℕ
  pub festival_class_id : Option ℕ
  pub child_id : Option ℕ
  pub shopify_product_gid : ℕ
  pub shopify_variant_gid : ℕ
  pub has_policy_version : Bool
  pub division_id : Option ℕ
  pub division_name_snapshot : Option ℕ
  pub staff_access_consent : Bool
  pub amount : ℕ
  pub currency_code : ℕ
  pub cart_reference : Option ℕ
  pub status : CheckoutIntentStatus
  pub expires_at : ℕ
  pub created_at : ℕ
  pub has_line_identity_protocol : Bool
  pub lines : List CheckoutIntentLineItemRecord

pub record CreateCheckoutIntentLineInput : Type 0 where
  pub id : Option ℕ
  pub line_index : Option ℕ
  pub line_type : Option LineType
  pub festival_class_id : Option ℕ
  pub child_id : Option ℕ
  pub offering_id : Option ℕ
  pub shopify_product_gid : ℕ
  pub shopify_variant_gid : ℕ
  pub amount : ℕ
  pub currency_code : ℕ
  pub division_id : Option ℕ
  pub division_name_snapshot : Option ℕ

-- A field that may be left out, and is then `null` or `false`, is that already.
pub record CreateCheckoutIntentInput : Type 0 where
  pub organization_id : ℕ
  pub customer_id : ℕ
  pub session_id : ℕ
  pub idempotency_key : ℕ
  pub intent_type : Option CheckoutIntentType
  pub offering_id : Option ℕ
  pub has_entitlement_class : Bool
  pub duration_days : Option ℕ
  pub festival_class_id : Option ℕ
  pub child_id : Option ℕ
  pub shopify_product_gid : ℕ
  pub shopify_variant_gid : ℕ
  pub has_policy_version : Bool
  pub division_id : Option ℕ
  pub division_name_snapshot : Option ℕ
  pub staff_access_consent : Bool
  pub amount : ℕ
  pub currency_code : ℕ
  pub expires_at : ℕ
  pub lines : List CreateCheckoutIntentLineInput

pub data CheckoutIntentOutcome : Type 0 where
  intent_created : CheckoutIntentRecord → CheckoutIntentOutcome
  in_progress : CheckoutIntentOutcome
  intent_ready : CheckoutIntentRecord → CheckoutCartRecord → CheckoutIntentOutcome
  intent_active intent_expired intent_failed : CheckoutIntentOutcome

pub record AttachCartInput : Type 0 where
  pub intent_id : ℕ
  pub shopify_cart_id : ℕ
  pub organization_id : ℕ
  pub customer_id : ℕ
  pub session_id : ℕ
  pub integration_version : ℕ
  pub expires_at : ℕ

pub record CheckoutRepository : Type 0 where
  pub carts : Dict ℕ CheckoutCartRecord
  pub intents : Dict ℕ CheckoutIntentRecord

-- `creating`, `ready` or `checkout_started`.
abbrev pub is_processing : CheckoutIntentStatus → Bool
is_processing creating = true
is_processing ready = true
is_processing checkout_started = true
is_processing _ = false

abbrev pub is_usable : CheckoutCartStatus → Bool
is_usable cart_ready = true
is_usable cart_checkout_started = true
is_usable _ = false

-- `ready` or `checkout_started`.
abbrev pub has_cart : CheckoutIntentStatus → Bool
has_cart ready = true
has_cart checkout_started = true
has_cart _ = false
