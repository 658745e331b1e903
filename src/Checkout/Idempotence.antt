-- ===== src/Checkout/Idempotence.antt =====
-- Requests that are made again with their idempotency key:
-- packages/backend/src/checkout/checkout-repository.ts.
use festival.Checkout.Repository.{
  has_processing_intent, IntentCalls, get_outcome, new_intent, has_key, create_intent,
}
use festival.Checkout.Records.{
  in_progress, CheckoutIntentOutcome, CreateCheckoutIntentInput, CheckoutIntentRecord,
  CheckoutRepository,
}
use festival.Base.{
  Bool-cases, inl, inr, nat_eq, Option-cases, ◌∷◌, [], insert, ◌⊎◌, values, some, find?, arith,
  none, true, lookup, Dict, Bool, ℕ, ◌≡◌,
}

find?-insert :
    (p : CheckoutIntentRecord → Bool) (id : ℕ) (intent : CheckoutIntentRecord)
    → (m : Dict ℕ CheckoutIntentRecord) → lookup id m ≡ none
    → find? p (values m) ≡ none
    → p intent ≡ true
    → find? p (values (insert id intent m)) ≡ some intent
find?-insert p id intent [] h f q = ground (arith, q)
find?-insert p id intent ((j, i) ∷ m) h f q = ground (arith, h, f, find?-insert p id intent m)

new_intent-has_key :
    (input : CreateCheckoutIntentInput) (calls : IntentCalls)
    → has_key input.organization_id input.customer_id input.session_id input.idempotency_key
        (new_intent input calls)
      ≡ true
unfolding has_key new_intent
new_intent-has_key input calls = ground arith

-- After a request for a checkout with a new identifier, one of two holds. `getOutcome` answers for
-- its key, and a request that is made again gets that answer and writes nothing; or the request was
-- turned away as in progress and wrote nothing, and `getOutcome` finds no intent of its key.
pub create_intent_again :
    (input : CreateCheckoutIntentInput) (calls calls' : IntentCalls) (repo : CheckoutRepository)
    → lookup calls.id repo.intents ≡ none
    → (let repo' = (create_intent input calls repo).0 in
        let outcome =
          get_outcome input.organization_id input.customer_id input.session_id input.idempotency_key
            calls'.now repo' in
        ((o : CheckoutIntentOutcome) × (outcome ≡ some o)
          × (create_intent input calls' repo' ≡ (repo', o)))
        ⊎ ((outcome ≡ none) × (repo' ≡ repo) × ((create_intent input calls repo).1 ≡ in_progress)))
unfolding create_intent get_outcome
create_intent_again input calls calls' repo new =
    let p =
      has_key input.organization_id input.customer_id input.session_id input.idempotency_key in
    elim (Option-cases (find? p (values repo.intents))) [
      | inr (intent, n) ↦ ground (arith, n)
      | inl n ↦
          elim (Bool-cases
            (has_processing_intent input.organization_id input.customer_id calls.now repo)) [
              | inl b ↦ ground (arith, n, b)
              | inr b ↦
                  let found =
                    find?-insert p calls.id (new_intent input calls) repo.intents new n
                      (new_intent-has_key input calls) in
                  ground (arith, n, b, found)
            ]
    ]
