-- ===== src/Commerce/Index.antt =====
use festival.Commerce.Deliveries.{new_delivery, write_delivery}
use festival.Base.{
  count-values-insert, sym, lookup-insert_ne, inr, lookup-insert, refl, inl, Bool-cases, nat_eq,
  nat_pair_eq, lookup-insert_pair, lookup_key, ◌∷◌, ◌≤◌, count-values-insert_new, ◌∙◌, insert-Keyed,
  values, false, lookup-map_values, map_values-Keyed, count, insert, ◌&&◌, some, none, ◌==◌,
  count-map_values, lookup, Dict, ◌≡◌, map_values, Keyed, Bool, [], arith, ℕ,
}
use festival.Commerce.Records.{ShopifyWebhookDelivery, DeliveryRepository, RecordDeliveryInput}

-- The index of the deliveries by webhook, which `recordDelivery` of
-- packages/backend/src/commerce/membership-commerce-repository.ts relies on.

abbrev pub is_of_webhook : ℕ → ℕ → ShopifyWebhookDelivery → Bool
is_of_webhook organization_id webhook_id delivery =
    delivery.organization_id == organization_id && delivery.webhook_id == webhook_id

-- Deliveries are stored under their identifiers; the index leads to a delivery of its webhook, and
-- knows every webhook that has one; a webhook has one delivery at most.
pub record IsIndexed (repo : DeliveryRepository) : Type 0 where
  pub keyed : Keyed (λ d. d.id) repo.deliveries
  pub indexed :
      (o w id : ℕ)
      → lookup (o, w) repo.deliveries_by_webhook ≡ some id
      → (d : ShopifyWebhookDelivery) × (lookup id repo.deliveries ≡ some d)
        × (d.organization_id ≡ o)
        × (d.webhook_id ≡ w)
  pub unknown :
      (o w : ℕ)
      → lookup (o, w) repo.deliveries_by_webhook ≡ none
      → count (is_of_webhook o w) (values repo.deliveries) ≡ 0
  pub one_delivery : (o w : ℕ) → count (is_of_webhook o w) (values repo.deliveries) ≤ 1

abbrev pub no_deliveries : DeliveryRepository
no_deliveries = record { deliveries = []; deliveries_by_webhook = [] }

pub no_deliveries-IsIndexed : IsIndexed no_deliveries
no_deliveries-IsIndexed = record {
  keyed = tt;
  indexed = λ o w id h. ground (arith, h);
  unknown = λ o w h. refl;
  one_delivery = λ o w. omega arith;
}

lookup-insert_pair_ne {ℓ} :
    {V : Type ℓ} (o w o' w' : ℕ) (v : V) (m : Dict (ℕ × ℕ) V)
    → (o == o' && w == w') ≡ false
    → lookup (o', w') (insert (o, w) v m) ≡ lookup (o', w') m
lookup-insert_pair_ne o w o' w' v [] h = ground (arith, h)
lookup-insert_pair_ne o w o' w' v ((j, x) ∷ m) h =
    ground (arith, h, lookup-insert_pair_ne o w o' w' v m h)

-- The same delivery after a change of its status.
pub record IsSame (before after : ShopifyWebhookDelivery) : Type 0 where
  pub same_id : after.id ≡ before.id
  pub same_organization : after.organization_id ≡ before.organization_id
  pub same_webhook : after.webhook_id ≡ before.webhook_id

pub write_delivery-IsIndexed :
    (id : ℕ) (before after : ShopifyWebhookDelivery) (repo : DeliveryRepository)
    → lookup id repo.deliveries ≡ some before
    → IsSame before after
    → IsIndexed repo
    → IsIndexed (write_delivery id after repo)
write_delivery-IsIndexed id before after repo found same v = record {
  keyed =
      insert-Keyed (λ d. d.id) id after repo.deliveries
        (same.same_id ∙ lookup_key (λ d. d.id) id before repo.deliveries v.keyed found) v.keyed;
  indexed = λ o w i h.
      let (d, there, eo, ew) = v.indexed o w i h in
      elim (Bool-cases (id == i)) [
        | inl e ↦ (
          after,
          ground (arith, e, lookup-insert id after repo.deliveries),
          ground (arith, e, there, found, eo, same),
          ground (arith, e, there, found, ew, same),
        )
        | inr e ↦ (d, ground (arith, e, there, lookup-insert_ne id i after repo.deliveries), eo, ew)
      ];
  unknown = λ o w h. ground (
    arith,
    v.unknown o w h,
    same,
    count-values-insert (is_of_webhook o w) id before after repo.deliveries found,
  );
  one_delivery = λ o w. ground (
    arith,
    v.one_delivery o w,
    same,
    count-values-insert (is_of_webhook o w) id before after repo.deliveries found,
  );
}

-- All deliveries after a change of their statuses.
pub map_deliveries-IsIndexed :
    (f : ShopifyWebhookDelivery → ShopifyWebhookDelivery) (repo : DeliveryRepository)
    → ((d : ShopifyWebhookDelivery) → IsSame d (f d))
    → IsIndexed repo
    → IsIndexed (record repo { deliveries = map_values f repo.deliveries })
map_deliveries-IsIndexed f repo same v =
    let counts = λ (o w : ℕ).
      count-map_values (is_of_webhook o w) (is_of_webhook o w) f repo.deliveries
        (λ d. ground (arith, same d)) in
    record {
      keyed = map_values-Keyed (λ d. d.id) f repo.deliveries (λ d. (same d).same_id) v.keyed;
      indexed = λ o w i h.
          let (d, there, eo, ew) = v.indexed o w i h in
          (
            f d,
            lookup-map_values f i d repo.deliveries there,
            (same d).same_organization ∙ eo,
            (same d).same_webhook ∙ ew,
          );
      unknown = λ o w h. counts o w ∙ v.unknown o w h;
      one_delivery = λ o w. ground (arith, counts o w, v.one_delivery o w);
    }

-- A delivery of a webhook that the index does not know.
pub new_delivery-IsIndexed :
    (input : RecordDeliveryInput) (uuid : ℕ) (repo : DeliveryRepository)
    → lookup (input.organization_id, input.webhook_id) repo.deliveries_by_webhook ≡ none
    → lookup uuid repo.deliveries ≡ none
    → IsIndexed repo
    → IsIndexed (record {
      deliveries = insert uuid (new_delivery input uuid) repo.deliveries;
      deliveries_by_webhook =
          insert (input.organization_id, input.webhook_id) uuid repo.deliveries_by_webhook;
    })
new_delivery-IsIndexed input uuid repo unseen fresh v =
    let new_one = new_delivery input uuid in
    let o' = input.organization_id in
    let w' = input.webhook_id in
    let counts =
      λ (o w : ℕ). count-values-insert_new (is_of_webhook o w) uuid new_one repo.deliveries fresh in
    let key = lookup-insert_pair (o', w') uuid repo.deliveries_by_webhook in
    let other = λ (o w : ℕ). lookup-insert_pair_ne o' w' o w uuid repo.deliveries_by_webhook in
    record {
      keyed = insert-Keyed (λ d. d.id) uuid new_one repo.deliveries refl v.keyed;
      indexed = λ o w i h. elim (Bool-cases (o' == o && w' == w)) [
        | inl e ↦ (
          new_one,
          ground (arith, e, h, key, lookup-insert uuid new_one repo.deliveries),
          ground (arith, e),
          ground (arith, e),
        )
        | inr e ↦
            let (d, there, eo, ew) = v.indexed o w i (sym (other o w e) ∙ h) in
            (
              d,
              ground (arith, there, fresh, lookup-insert_ne uuid i new_one repo.deliveries),
              eo,
              ew,
            )
      ];
      unknown = λ o w h. elim (Bool-cases (o' == o && w' == w)) [
        | inl e ↦ absurd (ground (arith, e, h, key))
        | inr e ↦ ground (arith, e, h, other o w e, counts o w, v.unknown o w)
      ];
      one_delivery = λ o w. elim (Bool-cases (o' == o && w' == w)) [
        | inl e ↦ ground (arith, e, counts o w, v.unknown o' w' unseen)
        | inr e ↦ ground (arith, e, counts o w, v.one_delivery o w)
      ];
    }
