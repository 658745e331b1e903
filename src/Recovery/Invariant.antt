-- ===== src/Recovery/Invariant.antt =====
-- What the methods that write keep of the repository of
-- packages/backend/src/checkout/checkout-recovery-repository.ts.
use festival.Base.{
  true, Bool-cases, find?-lookup, inr, count-values-insert_new, count-values-insert, inl,
  lookup-map_values-none, insert-Keyed, Option-cases, refl, false, ◌==◌, nat_eq, insert, find?,
  some, ◌∷◌, ◌≤◌, none, ◌≡◌, or_else, values, lookup, Keyed, map_values-Keyed, Option, count, arith,
  ℕ, Dict, [],
}
use festival.Recovery.Repository.{
  new_request, cancel_if_pending, is_pending_for, cancel_pending_recovery_requests,
  first_with_token,
}
use festival.Recovery.Records.{
  is_pending, CheckoutRecoveryRepository, CreateRecoveryRequestParams,
  CheckoutRecoveryRequestRecord,
}

-- Requests are stored under their identifiers, and an intent has one pending request at most.
pub record IsSingle (requests : Dict ℕ CheckoutRecoveryRequestRecord) : Type 0 where
  pub keyed : Keyed (λ r. r.id) requests
  pub one_pending : (o i : ℕ) → count (is_pending_for o i) (values requests) ≤ 1

pub no_requests-IsSingle : IsSingle []
no_requests-IsSingle = record { keyed = tt; one_pending = λ o i. omega arith }

-- Of the requests, none is pending for the intent once those are cancelled.
pub cancel-none_pending :
    (organization_id intent_id : ℕ) (requests : Dict ℕ CheckoutRecoveryRequestRecord)
    → count
        (is_pending_for organization_id intent_id)
        (values (cancel_pending_recovery_requests organization_id intent_id requests))
      ≡ 0
unfolding cancel_pending_recovery_requests is_pending_for
cancel-none_pending organization_id intent_id [] = refl
cancel-none_pending organization_id intent_id ((k, r) ∷ requests) =
    ground (arith, cancel-none_pending organization_id intent_id requests)

cancel-count :
    (o i organization_id intent_id : ℕ) (requests : Dict ℕ CheckoutRecoveryRequestRecord)
    → count
        (is_pending_for o i)
        (values (cancel_pending_recovery_requests organization_id intent_id requests))
      ≤ count (is_pending_for o i) (values requests)
unfolding cancel_pending_recovery_requests is_pending_for
cancel-count o i organization_id intent_id [] = omega arith
cancel-count o i organization_id intent_id ((k, r) ∷ requests) =
    ground (arith, cancel-count o i organization_id intent_id requests)

pub cancel-IsSingle :
    (organization_id intent_id : ℕ) (requests : Dict ℕ CheckoutRecoveryRequestRecord)
    → IsSingle requests
    → IsSingle (cancel_pending_recovery_requests organization_id intent_id requests)
unfolding cancel_pending_recovery_requests is_pending_for
cancel-IsSingle organization_id intent_id requests v = record {
  keyed =
      map_values-Keyed (λ r. r.id) (cancel_if_pending organization_id intent_id) requests
        (λ r. ground arith) v.keyed;
  one_pending =
      λ o i. ground (arith, v.one_pending o i, cancel-count o i organization_id intent_id requests);
}

-- A request that is not there yet, once the pending ones of its intent are cancelled.
pub new_request-IsSingle :
    (params : CreateRecoveryRequestParams) (uuid now : ℕ)
    → (requests : Dict ℕ CheckoutRecoveryRequestRecord)
    → lookup (or_else params.id uuid) requests ≡ none
    → IsSingle requests
    → IsSingle (
        insert (or_else params.id uuid) (new_request params uuid now) (
          cancel_pending_recovery_requests params.organization_id params.source_checkout_intent_id
            requests))
unfolding cancel_pending_recovery_requests is_pending_for
new_request-IsSingle params uuid now requests fresh v =
    let cancelled_ones =
      cancel_pending_recovery_requests params.organization_id params.source_checkout_intent_id
        requests in
    let single =
      cancel-IsSingle params.organization_id params.source_checkout_intent_id requests v in
    let fresh' =
      lookup-map_values-none
        (cancel_if_pending params.organization_id params.source_checkout_intent_id)
        (or_else params.id uuid) requests fresh in
    record {
      keyed =
          insert-Keyed (λ r. r.id) (or_else params.id uuid) (new_request params uuid now)
            cancelled_ones refl single.keyed;
      one_pending = λ o i. ground (
        arith,
        single.one_pending o i,
        cancel-none_pending params.organization_id params.source_checkout_intent_id requests,
        count-values-insert_new (is_pending_for o i) (or_else params.id uuid)
            (new_request params uuid now) cancelled_ones fresh',
      );
    }

-- Stored as pending, the request is the only one of its intent that is.
abbrev pub Admits : CheckoutRecoveryRequestRecord → Dict ℕ CheckoutRecoveryRequestRecord → Type 0
Admits request requests =
    is_pending request.status ≡ true
    → count (is_pending_for request.organization_id request.source_checkout_intent_id)
        (values requests)
      ≡ 0

-- A request that is stored under a new identifier.
pub store-IsSingle :
    (request : CheckoutRecoveryRequestRecord) (requests : Dict ℕ CheckoutRecoveryRequestRecord)
    → lookup request.id requests ≡ none
    → Admits request requests
    → IsSingle requests
    → IsSingle (insert request.id request requests)
unfolding is_pending_for
store-IsSingle request requests fresh admits v = record {
  keyed = insert-Keyed (λ r. r.id) request.id request requests refl v.keyed;
  one_pending = λ o i. elim (Bool-cases (is_pending request.status)) [
    | inl p ↦ ground (
      arith,
      p,
      v.one_pending o i,
      admits p,
      count-values-insert_new (is_pending_for o i) request.id request requests fresh,
    )
    | inr p ↦ ground (
      arith,
      p,
      v.one_pending o i,
      count-values-insert_new (is_pending_for o i) request.id request requests fresh,
    )
  ];
}

-- A request that is written in its place and is not pending any more.
pub write-IsSingle :
    (before after : CheckoutRecoveryRequestRecord)
    → (requests : Dict ℕ CheckoutRecoveryRequestRecord) → lookup before.id requests ≡ some before
    → after.id ≡ before.id
    → is_pending after.status ≡ false
    → IsSingle requests
    → IsSingle (insert before.id after requests)
unfolding is_pending_for
write-IsSingle before after requests found same closed v = record {
  keyed = insert-Keyed (λ r. r.id) before.id after requests same v.keyed;
  one_pending = λ o i. ground (
    arith,
    closed,
    v.one_pending o i,
    count-values-insert (is_pending_for o i) before.id before after requests found,
  );
}

-- The first request with a token is stored under its identifier.
pub first_with_token-found :
    (token_hash : ℕ) (organization_id : Option ℕ) (repo : CheckoutRecoveryRepository)
    → (request : CheckoutRecoveryRequestRecord) → IsSingle repo.recovery_requests
    → first_with_token token_hash organization_id repo ≡ some request
    → (find? (λ r. r.token_hash == token_hash) (values repo.recovery_requests) ≡ some request)
      × (lookup request.id repo.recovery_requests ≡ some request)
unfolding first_with_token
first_with_token-found token_hash organization_id repo request v h =
    elim (Option-cases (find? (λ r. r.token_hash == token_hash) (values repo.recovery_requests))) [
      | inl n ↦ absurd (ground (arith, n, h))
      | inr (r, n) ↦
          let found =
            find?-lookup (λ r. r.id) (λ r. r.token_hash == token_hash) r repo.recovery_requests
              v.keyed n in
          ground (arith, n, h, found)
    ]
