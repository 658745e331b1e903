-- ===== src/Commerce/Reach.antt =====
-- What holds of the deliveries after every sequence of calls of
-- packages/backend/src/commerce/membership-commerce-repository.ts.
use festival.Commerce.Index.{
  new_delivery-IsIndexed, write_delivery-IsIndexed, map_deliveries-IsIndexed,
  no_deliveries-IsIndexed, IsSame, no_deliveries, IsIndexed,
}
use festival.Base.{
  refl, nat_pair_eq, nat_eq, Bool-cases, arith, none, inr, ◌≡◌, inl, lookup, Option-cases, ℕ,
}
use festival.Commerce.Deliveries.{
  claimed, with_failure, as_processed, fail_if_stale, mark_delivery_failed,
  list_reclaimable_deliveries, claim_delivery, record_delivery, mark_delivery_processed,
}
use festival.Commerce.Records.{
  is_claimable, RecordDeliveryInput, ShopifyWebhookDelivery, DeliveryFailure, DeliveryRepository,
}

record_delivery-IsIndexed :
    (input : RecordDeliveryInput) (uuid : ℕ) (repo : DeliveryRepository)
    → lookup uuid repo.deliveries ≡ none
    → IsIndexed repo
    → IsIndexed (record_delivery input uuid repo).0
unfolding record_delivery
record_delivery-IsIndexed input uuid repo fresh v =
    elim (Option-cases
      (lookup (input.organization_id, input.webhook_id) repo.deliveries_by_webhook)) [
        | inr (id, n) ↦ rw (record_delivery, n) v
        | inl n ↦ rw (record_delivery, n) (new_delivery-IsIndexed input uuid repo n fresh v)
      ]

claim_delivery-IsIndexed :
    (id now : ℕ) (repo : DeliveryRepository)
    → IsIndexed repo
    → IsIndexed (claim_delivery id now repo).0
unfolding claim_delivery
claim_delivery-IsIndexed id now repo v = elim (Option-cases (lookup id repo.deliveries)) [
  | inl n ↦ rw (claim_delivery, n) v
  | inr (d, n) ↦ elim (Bool-cases (is_claimable d.status)) [
    | inr c ↦ rw (claim_delivery, n, c) v
    | inl c ↦
        rw (claim_delivery, n, c)
          (write_delivery-IsIndexed id d (claimed now d) repo n
            (record { same_id = refl; same_organization = refl; same_webhook = refl }) v)
  ]
]

mark_delivery_failed-IsIndexed :
    (id : ℕ) (failure : DeliveryFailure) (repo : DeliveryRepository)
    → IsIndexed repo
    → IsIndexed (mark_delivery_failed id failure repo)
unfolding mark_delivery_failed
mark_delivery_failed-IsIndexed id failure repo v = elim (Option-cases (lookup id repo.deliveries)) [
  | inl n ↦ rw (mark_delivery_failed, n) v
  | inr (d, n) ↦
      rw (mark_delivery_failed, n)
        (write_delivery-IsIndexed id d (with_failure failure d) repo n
          (record { same_id = refl; same_organization = refl; same_webhook = refl }) v)
]

mark_delivery_processed-IsIndexed :
    (id now : ℕ) (repo : DeliveryRepository)
    → IsIndexed repo
    → IsIndexed (mark_delivery_processed id now repo)
unfolding mark_delivery_processed
mark_delivery_processed-IsIndexed id now repo v = elim (Option-cases (lookup id repo.deliveries)) [
  | inl n ↦ rw (mark_delivery_processed, n) v
  | inr (d, n) ↦
      rw (mark_delivery_processed, n)
        (write_delivery-IsIndexed id d (as_processed now d) repo n
          (record { same_id = refl; same_organization = refl; same_webhook = refl }) v)
]

fail_if_stale-IsSame :
    (organization_id stale_before now : ℕ) (d : ShopifyWebhookDelivery)
    → IsSame d (fail_if_stale organization_id stale_before now d)
fail_if_stale-IsSame organization_id stale_before now d = record {
  same_id = ground arith;
  same_organization = ground arith;
  same_webhook = ground arith;
}

list_reclaimable_deliveries-IsIndexed :
    (organization_id limit stale_before now : ℕ) (repo : DeliveryRepository)
    → IsIndexed repo
    → IsIndexed (list_reclaimable_deliveries organization_id limit stale_before now repo).0
unfolding list_reclaimable_deliveries
list_reclaimable_deliveries-IsIndexed organization_id limit stale_before now repo v =
    map_deliveries-IsIndexed (fail_if_stale organization_id stale_before now) repo
      (fail_if_stale-IsSame organization_id stale_before now) v

-- The repositories that calls reach from an empty one.
pub data Reach : DeliveryRepository → Type 0 where
  start : Reach no_deliveries
  recorded :
      {repo : DeliveryRepository} (input : RecordDeliveryInput) (uuid : ℕ)
      → lookup uuid repo.deliveries ≡ none
      → Reach repo
      → Reach (record_delivery input uuid repo).0
  taken_up :
      {repo : DeliveryRepository} (id now : ℕ) → Reach repo → Reach (claim_delivery id now repo).0
  marked_failed :
      {repo : DeliveryRepository} (id : ℕ) (failure : DeliveryFailure)
      → Reach repo
      → Reach (mark_delivery_failed id failure repo)
  marked_processed :
      {repo : DeliveryRepository} (id now : ℕ)
      → Reach repo
      → Reach (mark_delivery_processed id now repo)
  listed :
      {repo : DeliveryRepository} (organization_id limit stale_before now : ℕ)
      → Reach repo
      → Reach (list_reclaimable_deliveries organization_id limit stale_before now repo).0

-- After every sequence of calls, where recorded deliveries are given new identifiers: a webhook of
-- an organization has one delivery at most, the index of webhooks leads to it and knows every
-- webhook that has one, and deliveries are stored under their identifiers.
pub Reach-IsIndexed : {repo : DeliveryRepository} → Reach repo → IsIndexed repo
Reach-IsIndexed start = no_deliveries-IsIndexed
Reach-IsIndexed (recorded input uuid fresh r) =
    record_delivery-IsIndexed input uuid _ fresh (Reach-IsIndexed r)
Reach-IsIndexed (taken_up id now r) = claim_delivery-IsIndexed id now _ (Reach-IsIndexed r)
Reach-IsIndexed (marked_failed id failure r) =
    mark_delivery_failed-IsIndexed id failure _ (Reach-IsIndexed r)
Reach-IsIndexed (marked_processed id now r) =
    mark_delivery_processed-IsIndexed id now _ (Reach-IsIndexed r)
Reach-IsIndexed (listed o limit stale now r) =
    list_reclaimable_deliveries-IsIndexed o limit stale now _ (Reach-IsIndexed r)
