-- ===== src/Commerce/Tests.antt =====
-- Runs of the deliveries of packages/backend/src/commerce/membership-commerce-repository.ts, and the
-- witnesses.
use festival.Commerce.Claims.{
  record_delivery_once, list_reclaimable_deliveries-bounds, claim_delivery_exclusive, IsClaimableIn,
}
use festival.Commerce.Index.{no_deliveries, is_of_webhook, IsIndexed}
use festival.Commerce.Deliveries.{
  new_delivery, claimed, list_reclaimable_deliveries, record_delivery, claim_delivery,
}
use festival.Base.{
  nat_eq, ◌==◌, if◌then◌else◌, true, ◌+◌, lookup, [], ◌⊎◌, All, none, ◌≤◌, ◌∷◌, some, values, refl,
  length, ◌≡◌, map, count,
}
use festival.Commerce.Reach.{Reach, start, recorded, taken_up, Reach-IsIndexed}
use festival.Commerce.Records.{
  ShopifyWebhookDelivery, RecordDeliveryInput, DeliveryRepository, accepted, duplicate, conflict,
}

abbrev webhook : RecordDeliveryInput
webhook = record {
  organization_id = 1;
  shop_domain = 2;
  webhook_id = 3;
  shopify_order_gid = 4;
  payload_sha256 = 5;
  received_at = 100;
}

abbrev recorded_one : DeliveryRepository
recorded_one = (record_delivery webhook 10 no_deliveries).0

recorded_one-Reach : Reach recorded_one
recorded_one-Reach = recorded webhook 10 refl start

abbrev first_claim : ShopifyWebhookDelivery
first_claim = claimed 110 (new_delivery webhook 10)

abbrev claimed_one : DeliveryRepository
claimed_one = (claim_delivery 10 110 recorded_one).0

claimed_one-Reach : Reach claimed_one
claimed_one-Reach = taken_up 10 110 recorded_one-Reach

Reach-IsIndexed_example : IsIndexed claimed_one
Reach-IsIndexed_example = Reach-IsIndexed claimed_one-Reach

-- A webhook that comes again with another payload is a conflict.
other_payload_conflicts :
    (record_delivery (record webhook { payload_sha256 = 6 }) 11 claimed_one).1 ≡ conflict
unfolding record_delivery claim_delivery
other_payload_conflicts = refl

record_delivery_once_example :
    ((count (is_of_webhook 1 3) (values claimed_one.deliveries) ≡ 0)
      × ((record_delivery webhook 11 claimed_one).1 ≡ accepted (new_delivery webhook 11)))
    ⊎ ((d : ShopifyWebhookDelivery) × (is_of_webhook 1 3 d ≡ true)
        × (lookup d.id claimed_one.deliveries ≡ some d)
        × (record_delivery webhook 11 claimed_one
            ≡ (claimed_one, if d.payload_sha256 == 5 then duplicate d else conflict)))
record_delivery_once_example = record_delivery_once webhook 11 claimed_one-Reach

claims : claim_delivery 10 110 recorded_one ≡ (claimed_one, some first_claim)
unfolding claim_delivery record_delivery
claims = refl

claim_delivery_exclusive_example :
    (claim_delivery 10 120 claimed_one ≡ (claimed_one, none))
    × ((before : ShopifyWebhookDelivery) × (lookup 10 recorded_one.deliveries ≡ some before)
        × (first_claim.attempt_count ≡ before.attempt_count + 1))
claim_delivery_exclusive_example =
    claim_delivery_exclusive 10 110 120 recorded_one claimed_one first_claim claims

-- The processing that began at 110 is stale at 110, and is listed again.
listed_again : map (λ d. d.id) (list_reclaimable_deliveries 1 5 110 200 claimed_one).1 ≡ 10 ∷ []
unfolding list_reclaimable_deliveries festival.Base.sort claim_delivery record_delivery
    festival.Commerce.Deliveries.is_reclaimable festival.Commerce.Deliveries.is_stale
listed_again = refl

list_reclaimable_deliveries-bounds_example :
    let (repo', listed_ones) = list_reclaimable_deliveries 1 5 110 200 claimed_one in
    (length listed_ones ≤ 5)
    × All (λ d. (d.organization_id ≡ 1) × IsClaimableIn repo' 210 d) listed_ones
list_reclaimable_deliveries-bounds_example =
    list_reclaimable_deliveries-bounds 1 5 110 200 210 claimed_one-Reach
