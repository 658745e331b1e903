-- ===== src/Recovery/Records.antt =====
-- The records of packages/backend/src/checkout/checkout-recovery-repository.ts.
use festival.Checkout.Records.{CheckoutIntentRecord}
use festival.Base.{ℕ, Option, Dict, List, Bool, true, false}

pub data CheckoutRecoveryStatus : Type 0 where
  pending consumed expired cancelled invalidated : CheckoutRecoveryStatus

abbrev pub is_pending : CheckoutRecoveryStatus → Bool
is_pending pending = true
is_pending _ = false

pub record CheckoutRecoveryRequestRecord : Type 0 where
  pub id : ℕ
  pub organization_id : ℕ
  pub customer_id : ℕ
  pub source_checkout_intent_id : ℕ
  pub token_hash : ℕ
  pub status : CheckoutRecoveryStatus
  pub requested_by_actor_uid : ℕ
  pub created_at : ℕ
  pub expires_at : ℕ
  pub consumed_at : Option ℕ

pub record CreateRecoveryRequestParams : Type 0 where
  pub id : Option ℕ
  pub organization_id : ℕ
  pub customer_id : ℕ
  pub source_checkout_intent_id : ℕ
  pub token_hash : ℕ
  pub requested_by_actor_uid : ℕ
  pub expires_at : ℕ

-- An organization that is left out or empty is `none`.
pub record ConsumeRecoveryRequestParams : Type 0 where
  pub token_hash : ℕ
  pub organization_id : Option ℕ
  pub consumed_at : Option ℕ

pub record OrderProjectionRef : Type 0 where
  pub organization_id : ℕ
  pub correlation_id : ℕ

pub record EntitlementRef : Type 0 where
  pub organization_id : ℕ
  pub checkout_intent_id : ℕ

pub record CheckoutRecoveryRepository : Type 0 where
  pub intents : Dict ℕ CheckoutIntentRecord
  pub recovery_requests : Dict ℕ CheckoutRecoveryRequestRecord
  pub order_projections : List OrderProjectionRef
  pub class_entitlements : List EntitlementRef
  pub membership_entitlements : List EntitlementRef

-- The errors that the methods throw.
pub data RecoveryError : Type 0 where
  intent_not_found customer_mismatch intent_completed : RecoveryError
  request_not_found request_expired : RecoveryError
  not_pending : CheckoutRecoveryStatus → RecoveryError
