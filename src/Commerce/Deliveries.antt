-- ===== src/Commerce/Deliveries.antt =====
-- The deliveries of `class InMemoryMembershipCommerceRepository` of
-- packages/backend/src/commerce/membership-commerce-repository.ts. The identifier of `randomUUID` and
-- the time of the call are arguments.
use festival.Base.{
  values, filter, sort, take, nat_pair_eq, nat_eq, map_values, ◌&&◌, lookup, List, true, ◌==◌, leb,
  insert, some, Option, none, Bool, if◌then◌else◌, ◌+◌, ℕ,
}
use festival.Commerce.Records.{
  is_being_processed, is_claimable, RecordDeliveryOutcome, DeliveryRepository, DeliveryFailure,
  ShopifyWebhookDelivery, RecordDeliveryInput, received, processing, processed, failed, upstream,
  projection, unexpected, accepted, duplicate, conflict, invalid_index,
}

abbrev pub new_delivery : RecordDeliveryInput → ℕ → ShopifyWebhookDelivery
new_delivery input uuid = record {
  id = uuid;
  organization_id = input.organization_id;
  shop_domain = input.shop_domain;
  webhook_id = input.webhook_id;
  shopify_order_gid = input.shopify_order_gid;
  payload_sha256 = input.payload_sha256;
  status = received;
  attempt_count = 0;
  failure_category = none;
  failure_stage = none;
  failure_code = none;
  shopify_request_id = none;
  failed_at = none;
  received_at = input.received_at;
  processing_started_at = none;
  processed_at = none;
}

-- What is answered for a webhook that the index knows.
abbrev pub known_delivery : ℕ → Option ShopifyWebhookDelivery → RecordDeliveryOutcome
known_delivery payload_sha256 none = invalid_index
known_delivery payload_sha256 (some existing) =
    if existing.payload_sha256 == payload_sha256 then duplicate existing else conflict

unfoldable pub record_delivery :
    RecordDeliveryInput → ℕ → DeliveryRepository → DeliveryRepository × RecordDeliveryOutcome
record_delivery input uuid repo =
    elim (lookup (input.organization_id, input.webhook_id) repo.deliveries_by_webhook) [
      | some id ↦ (repo, known_delivery input.payload_sha256 (lookup id repo.deliveries))
      | none ↦ (
        record {
          deliveries = insert uuid (new_delivery input uuid) repo.deliveries;
          deliveries_by_webhook =
              insert (input.organization_id, input.webhook_id) uuid repo.deliveries_by_webhook;
        },
        accepted (new_delivery input uuid),
      )
    ]

-- Without the fields of a failure.
abbrev pub without_failure : ShopifyWebhookDelivery → ShopifyWebhookDelivery
without_failure delivery = record delivery {
  failure_category = none;
  failure_stage = none;
  failure_code = none;
  shopify_request_id = none;
  failed_at = none;
}

abbrev pub claimed : ℕ → ShopifyWebhookDelivery → ShopifyWebhookDelivery
claimed now delivery = record (without_failure delivery) {
  status = processing;
  attempt_count = delivery.attempt_count + 1;
  processing_started_at = some now;
}

-- The delivery in its place of the map.
abbrev pub write_delivery : ℕ → ShopifyWebhookDelivery → DeliveryRepository → DeliveryRepository
write_delivery id delivery repo = record repo { deliveries = insert id delivery repo.deliveries }

unfoldable pub claim_delivery :
    ℕ → ℕ → DeliveryRepository → DeliveryRepository × Option ShopifyWebhookDelivery
claim_delivery delivery_id now repo = elim (lookup delivery_id repo.deliveries) [
  | none ↦ (repo, none)
  | some delivery ↦
      if is_claimable delivery.status
      then (write_delivery delivery_id (claimed now delivery) repo, some (claimed now delivery))
      else (repo, none)
]

abbrev pub with_failure : DeliveryFailure → ShopifyWebhookDelivery → ShopifyWebhookDelivery
with_failure failure delivery = record delivery {
  status = failed;
  failure_category = some failure.category;
  failure_stage = some failure.stage;
  failure_code = some failure.code;
  shopify_request_id = failure.request_id;
  failed_at = some failure.failed_at;
  processing_started_at = none;
}

unfoldable pub mark_delivery_failed : ℕ → DeliveryFailure → DeliveryRepository → DeliveryRepository
mark_delivery_failed delivery_id failure repo = elim (lookup delivery_id repo.deliveries) [
  | none ↦ repo
  | some delivery ↦ write_delivery delivery_id (with_failure failure delivery) repo
]

abbrev pub as_processed : ℕ → ShopifyWebhookDelivery → ShopifyWebhookDelivery
as_processed now delivery = record (without_failure delivery) {
  status = processed;
  processed_at = some now;
  processing_started_at = none;
}

unfoldable pub mark_delivery_processed : ℕ → ℕ → DeliveryRepository → DeliveryRepository
mark_delivery_processed delivery_id now repo = elim (lookup delivery_id repo.deliveries) [
  | none ↦ repo
  | some delivery ↦ write_delivery delivery_id (as_processed now delivery) repo
]

-- Started at a time at the latest, or without a time.
abbrev pub is_started_by : ℕ → Option ℕ → Bool
is_started_by stale_before none = true
is_started_by stale_before (some started_at) = leb started_at stale_before

unfoldable pub is_stale : ℕ → ℕ → ShopifyWebhookDelivery → Bool
is_stale organization_id stale_before delivery =
    delivery.organization_id == organization_id
    && is_being_processed delivery.status
    && is_started_by stale_before delivery.processing_started_at

-- A delivery whose processing is stale has failed; the request that it made is kept.
abbrev pub fail_if_stale : ℕ → ℕ → ℕ → ShopifyWebhookDelivery → ShopifyWebhookDelivery
fail_if_stale organization_id stale_before now delivery =
    if is_stale organization_id stale_before delivery
    then record delivery {
      status = failed;
      failure_category = some upstream;
      failure_stage = some projection;
      failure_code = some unexpected;
      failed_at = some now;
      processing_started_at = none;
    }
    else delivery

abbrev pub received_before : ShopifyWebhookDelivery → ShopifyWebhookDelivery → Bool
received_before left right = leb left.received_at right.received_at

unfoldable pub is_reclaimable : ℕ → ShopifyWebhookDelivery → Bool
is_reclaimable organization_id delivery =
    delivery.organization_id == organization_id && is_claimable delivery.status

unfoldable pub list_reclaimable_deliveries :
    ℕ → ℕ → ℕ → ℕ → DeliveryRepository → DeliveryRepository × List ShopifyWebhookDelivery
list_reclaimable_deliveries organization_id limit stale_before now repo =
    let deliveries = map_values (fail_if_stale organization_id stale_before now) repo.deliveries in
    (
      record repo { deliveries = deliveries },
      take limit
          (sort received_before (filter (is_reclaimable organization_id) (values deliveries))),
    )
