-- ===== src/Commerce/Claims.antt =====
-- What the calls on deliveries of packages/backend/src/commerce/membership-commerce-repository.ts
-- answer: a webhook that comes again, a delivery that is claimed, and those that are reclaimed.
use festival.Commerce.Index.{is_of_webhook}
use festival.Commerce.Reach.{listed, Reach-IsIndexed, Reach}
use festival.Base.{
  sort-All, nat_pair_eq, lookup_key, ◌==◌, sort, if◌then◌else◌, Keyed-found, ◌⊎◌, filter-All,
  All-map, filter, values, count, [], zero, ◌∷◌, ◌≤◌, suc, take, true, All, length, List, nat_eq,
  lookup-insert, Bool-cases, inr, arith, inl, Option-cases, ◌+◌, lookup, none, some, ◌≡◌, ℕ,
}
use festival.Commerce.Deliveries.{
  received_before, new_delivery, list_reclaimable_deliveries, is_reclaimable, claimed,
  write_delivery, claim_delivery, record_delivery,
}
use festival.Commerce.Records.{
  is_claimable, ShopifyWebhookDelivery, DeliveryRepository, RecordDeliveryInput, accepted,
  duplicate, conflict,
}

-- A webhook that comes in is recorded once: in every repository that calls reach, the call answers
-- that the delivery is accepted, where the webhook has none yet, and otherwise writes nothing and
-- answers with that delivery, if the payloads have one hash, or with a conflict, if they have not.
-- The error that the index is invalid is never thrown.
pub record_delivery_once :
    (input : RecordDeliveryInput) (uuid : ℕ) {repo : DeliveryRepository}
    → Reach repo
    → ((count (is_of_webhook input.organization_id input.webhook_id) (values repo.deliveries) ≡ 0)
        × ((record_delivery input uuid repo).1 ≡ accepted (new_delivery input uuid)))
      ⊎ ((d : ShopifyWebhookDelivery) × (is_of_webhook input.organization_id input.webhook_id d
            ≡ true)
          × (lookup d.id repo.deliveries ≡ some d)
          × (record_delivery input uuid repo
              ≡ (repo, if d.payload_sha256 == input.payload_sha256 then duplicate d else conflict)))
unfolding record_delivery
record_delivery_once input uuid {repo = repo} r =
    let v = Reach-IsIndexed r in
    elim (Option-cases
      (lookup (input.organization_id, input.webhook_id) repo.deliveries_by_webhook)) [
        | inl n ↦ inl (v.unknown input.organization_id input.webhook_id n, ground (arith, n))
        | inr (id, n) ↦
            let (d, there, eo, ew) = v.indexed input.organization_id input.webhook_id id n in
            let same = lookup_key (λ d. d.id) id d repo.deliveries v.keyed there in
            inr (d, ground (arith, eo, ew), ground (arith, there, same), ground (arith, n, there))
      ]

-- A claim that succeeds counts one attempt more, and a second claim right after it, at any time,
-- answers nothing and writes nothing.
pub claim_delivery_exclusive :
    (id now now' : ℕ) (repo repo' : DeliveryRepository) (d : ShopifyWebhookDelivery)
    → claim_delivery id now repo ≡ (repo', some d)
    → (claim_delivery id now' repo' ≡ (repo', none))
      × ((before : ShopifyWebhookDelivery) × (lookup id repo.deliveries ≡ some before)
          × (d.attempt_count ≡ before.attempt_count + 1))
unfolding claim_delivery
claim_delivery_exclusive id now now' repo repo' d h =
    elim (Option-cases (lookup id repo.deliveries)) [
      | inl n ↦ absurd (ground (arith, n, h))
      | inr (before, n) ↦ elim (Bool-cases (is_claimable before.status)) [
        | inr c ↦ absurd (ground (arith, n, c, h))
        | inl c ↦
            let written : repo' ≡ write_delivery id (claimed now before) repo =
              ground (arith, n, c, h) in
            let there : lookup id repo'.deliveries ≡ some (claimed now before) =
              rw written (lookup-insert id (claimed now before) repo.deliveries) in
            (ground (arith, there), (before, n, ground (arith, n, c, h)))
      ]
    ]

length-take {ℓ} : {A : Type ℓ} (n : ℕ) (xs : List A) → length (take n xs) ≤ n
length-take zero xs = omega arith
length-take (suc n) [] = omega arith
length-take (suc n) (x ∷ xs) = omega (arith, length-take n xs)

take-All {ℓ κ} : {A : Type ℓ} (P : A → Type κ) (n : ℕ) (xs : List A) → All P xs → All P (take n xs)
take-All P zero xs h = tt
take-All P (suc n) [] h = tt
take-All P (suc n) (x ∷ xs) (p, h) = (p, take-All P n xs h)

-- A delivery that can be claimed in a repository.
abbrev pub IsClaimableIn : DeliveryRepository → ℕ → ShopifyWebhookDelivery → Type 0
IsClaimableIn repo now d = (claim_delivery d.id now repo).1 ≡ some (claimed now d)

stored-IsClaimableIn :
    (repo : DeliveryRepository) (organization_id now : ℕ) (d : ShopifyWebhookDelivery)
    → (lookup d.id repo.deliveries ≡ some d) × (is_reclaimable organization_id d ≡ true)
    → (d.organization_id ≡ organization_id) × IsClaimableIn repo now d
unfolding claim_delivery is_reclaimable
stored-IsClaimableIn repo organization_id now d (there, c) =
    (ground (arith, c), ground (arith, there, c))

-- In every repository that calls reach, the deliveries that are listed for another attempt are no
-- more than the limit, are of the organization, and each of them can be claimed after the listing.
pub list_reclaimable_deliveries-bounds :
    (organization_id limit stale_before now later : ℕ) {repo : DeliveryRepository}
    → Reach repo
    → (let (repo', listed_ones) =
          list_reclaimable_deliveries organization_id limit stale_before now repo in
        (length listed_ones ≤ limit)
        × All
            (λ d. (d.organization_id ≡ organization_id) × IsClaimableIn repo' later d)
            listed_ones)
unfolding list_reclaimable_deliveries
list_reclaimable_deliveries-bounds organization_id limit stale_before now later {repo = repo} r =
    let repo' = (list_reclaimable_deliveries organization_id limit stale_before now repo).0 in
    let v = Reach-IsIndexed (listed organization_id limit stale_before now r) in
    let Wanted : ShopifyWebhookDelivery → Type 0 =
      λ d. (d.organization_id ≡ organization_id) × IsClaimableIn repo' later d in
    let reclaimable = filter (is_reclaimable organization_id) (values repo'.deliveries) in
    let wanted : All Wanted reclaimable =
      All-map (stored-IsClaimableIn repo' organization_id later) reclaimable (
        filter-All (λ d. lookup d.id repo'.deliveries ≡ some d) (is_reclaimable organization_id)
          (values repo'.deliveries) (Keyed-found (λ d. d.id) repo'.deliveries v.keyed)) in
    (
      length-take limit (sort received_before reclaimable),
      take-All Wanted limit (sort received_before reclaimable)
          (sort-All Wanted received_before reclaimable wanted),
    )
