-- ===== src/Checkout/Invariant.antt =====
-- What the operations keep of the repository of
-- packages/backend/src/checkout/checkout-repository.ts.
use festival.Checkout.Repository.{
  IntentCalls, new_intent, has_key, has_processing_intent, is_processing_at,
}
use festival.Checkout.Records.{
  CheckoutCartRecord, CreateCheckoutIntentInput, CheckoutRepository, CheckoutIntentRecord,
  is_processing,
}
use festival.Base.{
  refl, find?-none, count-values-insert, count-values-insert_new, count_mono, lookup_key, any-none,
  ◌∙◌, false, insert-Keyed, insert, find?, some, none, lookup, nat_eq, Dict, values, count, Keyed,
  [], arith, true, ℕ, ◌≡◌, ◌≤◌,
}

-- From a time on: a customer has one intent under way at most, an idempotency key has one intent at
-- most, and intents are stored under their identifiers.
pub record IsExclusive (clock : ℕ) (repo : CheckoutRepository) : Type 0 where
  pub keyed : Keyed (λ i. i.id) repo.intents
  pub one_processing :
      (o c t : ℕ) → clock ≤ t → count (is_processing_at o c t) (values repo.intents) ≤ 1
  pub one_key : (o c s k : ℕ) → count (has_key o c s k) (values repo.intents) ≤ 1

abbrev pub no_checkouts : CheckoutRepository
no_checkouts = record { carts = []; intents = [] }

pub no_checkouts-IsExclusive : IsExclusive 0 no_checkouts
no_checkouts-IsExclusive = record {
  keyed = tt;
  one_processing = λ o c t h. omega arith;
  one_key = λ o c s k. omega arith;
}

-- The same intent at a later stage: it is under way only if it was.
pub record IsLater (before after : CheckoutIntentRecord) : Type 0 where
  pub same_id : after.id ≡ before.id
  pub same_organization : after.organization_id ≡ before.organization_id
  pub same_customer : after.customer_id ≡ before.customer_id
  pub same_session : after.session_id ≡ before.session_id
  pub same_idempotency_key : after.idempotency_key ≡ before.idempotency_key
  pub same_expires_at : after.expires_at ≡ before.expires_at
  pub was_processing : is_processing after.status ≡ true → is_processing before.status ≡ true

pub write_intent-IsExclusive :
    (clock id : ℕ) (before after : CheckoutIntentRecord) (carts : Dict ℕ CheckoutCartRecord)
    → (repo : CheckoutRepository) → lookup id repo.intents ≡ some before
    → IsLater before after
    → IsExclusive clock repo
    → IsExclusive clock (record { carts = carts; intents = insert id after repo.intents })
unfolding is_processing_at has_key
write_intent-IsExclusive clock id before after carts repo found later v = record {
  keyed =
      insert-Keyed (λ i. i.id) id after repo.intents
        (later.same_id ∙ lookup_key (λ i. i.id) id before repo.intents v.keyed found) v.keyed;
  one_processing = λ o c t h. ground (
    arith,
    v.one_processing o c t h,
    later,
    count-values-insert (is_processing_at o c t) id before after repo.intents found,
  );
  one_key = λ o c s k. ground (
    arith,
    v.one_key o c s k,
    later,
    count-values-insert (has_key o c s k) id before after repo.intents found,
  );
}

-- A new intent of a new key, of a customer who has none under way.
pub new_intent-IsExclusive :
    (clock : ℕ) (input : CreateCheckoutIntentInput) (calls : IntentCalls)
    (repo : CheckoutRepository)
    → clock ≤ calls.now
    → lookup calls.id repo.intents ≡ none
    → find?
        (has_key input.organization_id input.customer_id input.session_id input.idempotency_key)
        (values repo.intents)
      ≡ none
    → has_processing_intent input.organization_id input.customer_id calls.now repo ≡ false
    → IsExclusive clock repo
    → IsExclusive calls.now
        (record repo { intents = insert calls.id (new_intent input calls) repo.intents })
unfolding has_processing_intent is_processing_at has_key new_intent
new_intent-IsExclusive clock input calls repo later new no_key none_processing v = record {
  keyed = insert-Keyed (λ i. i.id) calls.id (new_intent input calls) repo.intents refl v.keyed;
  one_processing = λ o c t h. ground (
    arith,
    v.one_processing o c t,
    later,
    any-none (is_processing_at input.organization_id input.customer_id calls.now)
        (values repo.intents) none_processing,
    count_mono (is_processing_at o c t) (is_processing_at o c calls.now)
        (λ i p. ground (arith, p, h)) (values repo.intents),
    count-values-insert_new (is_processing_at o c t) calls.id (new_intent input calls) repo.intents
        new,
  );
  one_key = λ o c s k. ground (
    arith,
    v.one_key o c s k,
    find?-none
        (has_key input.organization_id input.customer_id input.session_id input.idempotency_key)
        (values repo.intents) no_key,
    count-values-insert_new (has_key o c s k) calls.id (new_intent input calls) repo.intents new,
  );
}
