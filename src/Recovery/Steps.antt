-- ===== src/Recovery/Steps.antt =====
-- The sequences of calls of the repository of
-- packages/backend/src/checkout/checkout-recovery-repository.ts.
use festival.Recovery.Invariant.{Admits, first_with_token-found, IsSingle}
use festival.Checkout.Records.{CheckoutIntentRecord}
use festival.Base.{
  refl, false, true, some, leb, ◌==◌, nat_eq, Bool-cases, insert, inr, none, ◌≡◌, inl, or_else,
  lookup, Option-cases, [], ℕ, Dict,
}
use festival.Recovery.Repository.{
  consume, expire, new_request, check_completed_order_or_entitlement, first_with_token, intent_of,
  cancel_pending_recovery_requests, add_membership_entitlement, add_class_entitlement,
  add_order_projection, consume_recovery_request, invalidate_intent, create_recovery_request,
  add_intent, add_recovery_request,
}
use festival.Recovery.Records.{
  is_pending, EntitlementRef, CheckoutRecoveryRequestRecord, OrderProjectionRef,
  CreateRecoveryRequestParams, ConsumeRecoveryRequestParams, CheckoutRecoveryRepository,
}

abbrev pub no_recoveries : CheckoutRecoveryRepository
no_recoveries = record {
  intents = [];
  recovery_requests = [];
  order_projections = [];
  class_entitlements = [];
  membership_entitlements = [];
}

-- One call. A request that is created or added has an identifier that no other has, and one that
-- is added as pending is for an intent that has no pending request: `addRecoveryRequest` itself
-- checks neither.
pub data Step : CheckoutRecoveryRepository → CheckoutRecoveryRepository → Type 0 where
  intent_added :
      {repo : CheckoutRecoveryRepository} (intent : CheckoutIntentRecord)
      → Step repo (add_intent intent repo)
  order_added :
      {repo : CheckoutRecoveryRepository} (projection : OrderProjectionRef)
      → Step repo (add_order_projection projection repo)
  class_added :
      {repo : CheckoutRecoveryRepository} (entitlement : EntitlementRef)
      → Step repo (add_class_entitlement entitlement repo)
  membership_added :
      {repo : CheckoutRecoveryRepository} (entitlement : EntitlementRef)
      → Step repo (add_membership_entitlement entitlement repo)
  request_added :
      {repo : CheckoutRecoveryRepository} (request : CheckoutRecoveryRequestRecord)
      → lookup request.id repo.recovery_requests ≡ none
      → Admits request repo.recovery_requests
      → Step repo (add_recovery_request request repo)
  invalidated :
      {repo : CheckoutRecoveryRepository} (organization_id intent_id : ℕ)
      → Step repo (invalidate_intent organization_id intent_id repo).0
  requested :
      {repo : CheckoutRecoveryRepository} (params : CreateRecoveryRequestParams) (uuid now : ℕ)
      → lookup (or_else params.id uuid) repo.recovery_requests ≡ none
      → Step repo (create_recovery_request params uuid now repo).0
  token_used :
      {repo : CheckoutRecoveryRepository} (params : ConsumeRecoveryRequestParams) (now : ℕ)
      → Step repo (consume_recovery_request params now repo).0

pub data Steps : CheckoutRecoveryRepository → CheckoutRecoveryRepository → Type 0 where
  here : {repo : CheckoutRecoveryRepository} → Steps repo repo
  next :
      {before middle after : CheckoutRecoveryRepository}
      → Steps before middle
      → Step middle after
      → Steps before after

-- What a call does to the requests.
pub data Change : (before after : Dict ℕ CheckoutRecoveryRequestRecord) → Type 0 where
  unchanged : {requests : Dict ℕ CheckoutRecoveryRequestRecord} → Change requests requests
  cancelled_for :
      {requests : Dict ℕ CheckoutRecoveryRequestRecord} (organization_id intent_id : ℕ)
      → Change requests (cancel_pending_recovery_requests organization_id intent_id requests)
  added :
      {requests : Dict ℕ CheckoutRecoveryRequestRecord} (params : CreateRecoveryRequestParams)
      (uuid now : ℕ)
      → lookup (or_else params.id uuid) requests ≡ none
      → Change requests (
          insert (or_else params.id uuid) (new_request params uuid now) (
            cancel_pending_recovery_requests params.organization_id params.source_checkout_intent_id
              requests))
  stored :
      {requests : Dict ℕ CheckoutRecoveryRequestRecord} (request : CheckoutRecoveryRequestRecord)
      → lookup request.id requests ≡ none
      → Admits request requests
      → Change requests (insert request.id request requests)
  closed :
      {requests : Dict ℕ CheckoutRecoveryRequestRecord}
      (before after : CheckoutRecoveryRequestRecord)
      → lookup before.id requests ≡ some before
      → is_pending before.status ≡ true
      → after.id ≡ before.id
      → after.token_hash ≡ before.token_hash
      → is_pending after.status ≡ false
      → Change requests (insert before.id after requests)

invalidate_intent-Change :
    (organization_id intent_id : ℕ) (repo : CheckoutRecoveryRepository)
    → Change repo.recovery_requests
        (invalidate_intent organization_id intent_id repo).0.recovery_requests
unfolding invalidate_intent
invalidate_intent-Change organization_id intent_id repo =
    elim (Option-cases (intent_of organization_id (lookup intent_id repo.intents))) [
      | inl n ↦ rw (invalidate_intent, n) unchanged
      | inr (intent, n) ↦
          elim (Bool-cases (
            check_completed_order_or_entitlement organization_id intent.id intent.correlation_id
              repo)) [
                | inl c ↦ rw (invalidate_intent, n, c) unchanged
                | inr c ↦ rw (invalidate_intent, n, c) (cancelled_for organization_id intent_id)
              ]
    ]

create_recovery_request-Change :
    (params : CreateRecoveryRequestParams) (uuid now : ℕ) (repo : CheckoutRecoveryRepository)
    → lookup (or_else params.id uuid) repo.recovery_requests ≡ none
    → Change repo.recovery_requests
        (create_recovery_request params uuid now repo).0.recovery_requests
unfolding create_recovery_request
create_recovery_request-Change params uuid now repo fresh =
    elim (Option-cases
      (intent_of params.organization_id (lookup params.source_checkout_intent_id repo.intents))) [
        | inl n ↦ rw (create_recovery_request, n) unchanged
        | inr (intent, n) ↦ elim (Bool-cases (intent.customer_id == params.customer_id)) [
          | inr c ↦ rw (create_recovery_request, n, c) unchanged
          | inl c ↦
              elim (Bool-cases (
                check_completed_order_or_entitlement params.organization_id intent.id
                  intent.correlation_id repo)) [
                    | inl d ↦ rw (create_recovery_request, n, c, d) unchanged
                    | inr d ↦ rw (create_recovery_request, n, c, d) (added params uuid now fresh)
                  ]
        ]
      ]

consume_recovery_request-Change :
    (params : ConsumeRecoveryRequestParams) (now : ℕ) (repo : CheckoutRecoveryRepository)
    → IsSingle repo.recovery_requests
    → Change repo.recovery_requests (consume_recovery_request params now repo).0.recovery_requests
unfolding consume_recovery_request
consume_recovery_request-Change params now repo v =
    elim (Option-cases (first_with_token params.token_hash params.organization_id repo)) [
      | inl n ↦ rw (consume_recovery_request, n) unchanged
      | inr (request, n) ↦
          let (_, found) =
            first_with_token-found params.token_hash params.organization_id repo request v n in
          elim (Bool-cases (is_pending request.status)) [
            | inr p ↦ rw (consume_recovery_request, n, p) unchanged
            | inl p ↦ elim (Bool-cases (leb request.expires_at (or_else params.consumed_at now))) [
              | inl e ↦
                  rw (consume_recovery_request, n, p, e)
                    (closed request (expire request) found p refl refl refl)
              | inr e ↦
                  rw (consume_recovery_request, n, p, e)
                    (closed request (consume (or_else params.consumed_at now) request) found p refl
                      refl refl)
            ]
          ]
    ]

pub Step-Change :
    {before after : CheckoutRecoveryRepository}
    → IsSingle before.recovery_requests
    → Step before after
    → Change before.recovery_requests after.recovery_requests
unfolding add_intent add_order_projection add_class_entitlement add_membership_entitlement
    add_recovery_request
Step-Change v (intent_added intent) = unchanged
Step-Change v (order_added projection) = unchanged
Step-Change v (class_added entitlement) = unchanged
Step-Change v (membership_added entitlement) = unchanged
Step-Change v (request_added request fresh admits) = stored request fresh admits
Step-Change v (invalidated organization_id intent_id) =
    invalidate_intent-Change organization_id intent_id _
Step-Change v (requested params uuid now fresh) =
    create_recovery_request-Change params uuid now _ fresh
Step-Change v (token_used params now) = consume_recovery_request-Change params now _ v
