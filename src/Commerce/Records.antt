-- ===== src/Commerce/Records.antt =====
-- The deliveries of packages/backend/src/commerce/membership-commerce-repository.ts. Identifiers,
-- domains and hashes are texts that are only compared, so they are naturals. The topic and the
-- version of the API have one value each.
use festival.Base.{ℕ, Option, Dict, Bool, true, false}

pub data DeliveryStatus : Type 0 where
  received processing processed failed : DeliveryStatus

pub data FailureCategory : Type 0 where
  upstream persistence invalid : FailureCategory

pub data FailureStage : Type 0 where
  order_read projection : FailureStage

pub data FailureCode : Type 0 where
  shopify_upstream shopify_transport invalid_data : FailureCode
  paid_line_conflict persistence_failed unexpected : FailureCode

pub record ShopifyWebhookDelivery : Type 0 where
  pub id : ℕ
  pub organization_id : ℕ
  pub shop_domain : ℕ
  pub webhook_id : ℕ
  pub shopify_order_gid : ℕ
  pub payload_sha256 : ℕ
  pub status : DeliveryStatus
  pub attempt_count : ℕ
  pub failure_category : Option FailureCategory
  pub failure_stage : Option FailureStage
  pub failure_code : Option FailureCode
  pub shopify_request_id : Option ℕ
  pub failed_at : Option ℕ
  pub received_at : ℕ
  pub processing_started_at : Option ℕ
  pub processed_at : Option ℕ

pub record RecordDeliveryInput : Type 0 where
  pub organization_id : ℕ
  pub shop_domain : ℕ
  pub webhook_id : ℕ
  pub shopify_order_gid : ℕ
  pub payload_sha256 : ℕ
  pub received_at : ℕ

-- What `recordDelivery` answers, and the error that it throws.
pub data RecordDeliveryOutcome : Type 0 where
  accepted duplicate : ShopifyWebhookDelivery → RecordDeliveryOutcome
  conflict invalid_index : RecordDeliveryOutcome

pub record DeliveryFailure : Type 0 where
  pub category : FailureCategory
  pub stage : FailureStage
  pub code : FailureCode
  pub request_id : Option ℕ
  pub failed_at : ℕ

-- The key of `deliveriesByWebhook` is the organization and the webhook.
pub record DeliveryRepository : Type 0 where
  pub deliveries : Dict ℕ ShopifyWebhookDelivery
  pub deliveries_by_webhook : Dict (ℕ × ℕ) ℕ

-- `received` or `failed`.
abbrev pub is_claimable : DeliveryStatus → Bool
is_claimable received = true
is_claimable failed = true
is_claimable _ = false

abbrev pub is_being_processed : DeliveryStatus → Bool
is_being_processed processing = true
is_being_processed _ = false
