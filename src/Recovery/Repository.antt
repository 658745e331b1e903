-- ===== src/Recovery/Repository.antt =====
-- `class InMemoryCheckoutRecoveryRepository` of
-- packages/backend/src/checkout/checkout-recovery-repository.ts. The identifier of `randomUUID` and
-- the time of the call are arguments. The methods that take an object or its fields one by one have
-- one form here.
use festival.Base.{
  inr, [], ◌||◌, filter, not, inl, values, false, sort, ◌∷◌, nat_eq, ◌&&◌, ◌⊎◌, true, map_values,
  leb, ◌++◌, List, any, find?, lookup, ◌==◌, none, insert, some, Dict, Bool, or_else, if◌then◌else◌,
  ℕ, Option,
}
use festival.Recovery.Records.{
  RecoveryError, is_pending, CheckoutRecoveryRepository, OrderProjectionRef, EntitlementRef,
  ConsumeRecoveryRequestParams, CheckoutRecoveryRequestRecord, CreateRecoveryRequestParams, pending,
  consumed, expired, cancelled, intent_not_found, customer_mismatch, intent_completed,
  request_not_found, request_expired, not_pending,
}
use festival.Checkout.Records.{
  CheckoutIntentRecord, CheckoutIntentType, CheckoutIntentStatus, approved, superseded, class_entry,
  membership,
}

unfoldable pub add_intent :
    CheckoutIntentRecord → CheckoutRecoveryRepository → CheckoutRecoveryRepository
add_intent intent repo = record repo { intents = insert intent.id intent repo.intents }

unfoldable pub add_order_projection :
    OrderProjectionRef → CheckoutRecoveryRepository → CheckoutRecoveryRepository
add_order_projection projection repo = record repo {
  order_projections = repo.order_projections ++ projection ∷ [];
}

unfoldable pub add_class_entitlement :
    EntitlementRef → CheckoutRecoveryRepository → CheckoutRecoveryRepository
add_class_entitlement entitlement repo = record repo {
  class_entitlements = repo.class_entitlements ++ entitlement ∷ [];
}

unfoldable pub add_membership_entitlement :
    EntitlementRef → CheckoutRecoveryRepository → CheckoutRecoveryRepository
add_membership_entitlement entitlement repo = record repo {
  membership_entitlements = repo.membership_entitlements ++ entitlement ∷ [];
}

unfoldable pub add_recovery_request :
    CheckoutRecoveryRequestRecord → CheckoutRecoveryRepository → CheckoutRecoveryRepository
add_recovery_request request repo = record repo {
  recovery_requests = insert request.id request repo.recovery_requests;
}

-- An order of the intent's correlation, or an entitlement of the intent.
unfoldable pub check_completed_order_or_entitlement : ℕ → ℕ → ℕ → CheckoutRecoveryRepository → Bool
check_completed_order_or_entitlement organization_id intent_id correlation_id repo =
    any (λ p. p.organization_id == organization_id && p.correlation_id == correlation_id)
      repo.order_projections
    || any (λ e. e.organization_id == organization_id && e.checkout_intent_id == intent_id)
        repo.class_entitlements
    || any (λ e. e.organization_id == organization_id && e.checkout_intent_id == intent_id)
        repo.membership_entitlements

unfoldable pub has_completed_order_or_entitlement : ℕ → ℕ → ℕ → CheckoutRecoveryRepository → Bool
has_completed_order_or_entitlement organization_id intent_id correlation_id repo =
    elim (lookup intent_id repo.intents) [
      | none ↦ check_completed_order_or_entitlement organization_id intent_id correlation_id repo
      | some intent ↦
          check_completed_order_or_entitlement organization_id intent.id intent.correlation_id repo
    ]

-- `approved` or `superseded`.
abbrev pub is_closed : CheckoutIntentStatus → Bool
is_closed approved = true
is_closed superseded = true
is_closed _ = false

abbrev pub is_class_entry : CheckoutIntentType → Bool
is_class_entry class_entry = true
is_class_entry membership = false

unfoldable pub is_recoverable : ℕ → ℕ → CheckoutRecoveryRepository → CheckoutIntentRecord → Bool
is_recoverable organization_id customer_id repo intent =
    intent.organization_id == organization_id
    && intent.customer_id == customer_id
    && not (is_closed intent.status)
    && not (is_class_entry intent.intent_type)
    && not
        (check_completed_order_or_entitlement organization_id intent.id intent.correlation_id repo)

-- The latest first.
abbrev pub created_later : CheckoutIntentRecord → CheckoutIntentRecord → Bool
created_later a b = leb b.created_at a.created_at

unfoldable pub list_recoverable_intents :
    ℕ → ℕ → CheckoutRecoveryRepository → List CheckoutIntentRecord
list_recoverable_intents organization_id customer_id repo =
    sort created_later
      (filter (is_recoverable organization_id customer_id repo) (values repo.intents))

-- A pending request for an intent.
unfoldable pub is_pending_for : ℕ → ℕ → CheckoutRecoveryRequestRecord → Bool
is_pending_for organization_id intent_id request =
    request.organization_id == organization_id
    && request.source_checkout_intent_id == intent_id
    && is_pending request.status

abbrev pub cancel_if_pending : ℕ → ℕ → CheckoutRecoveryRequestRecord → CheckoutRecoveryRequestRecord
cancel_if_pending organization_id intent_id request =
    if is_pending_for organization_id intent_id request
    then record request { status = cancelled }
    else request

unfoldable pub cancel_pending_recovery_requests :
    ℕ → ℕ → Dict ℕ CheckoutRecoveryRequestRecord → Dict ℕ CheckoutRecoveryRequestRecord
cancel_pending_recovery_requests organization_id intent_id requests =
    map_values (cancel_if_pending organization_id intent_id) requests

-- The intent of the organization, where it is there.
abbrev pub intent_of : ℕ → Option CheckoutIntentRecord → Option CheckoutIntentRecord
intent_of organization_id none = none
intent_of organization_id (some intent) =
    if intent.organization_id == organization_id then some intent else none

abbrev pub supersede : CheckoutIntentRecord → CheckoutIntentRecord
supersede intent = record intent { status = superseded }

unfoldable pub invalidate_intent :
    ℕ → ℕ → CheckoutRecoveryRepository → CheckoutRecoveryRepository × Option RecoveryError
invalidate_intent organization_id intent_id repo =
    elim (intent_of organization_id (lookup intent_id repo.intents)) [
      | none ↦ (repo, some intent_not_found)
      | some intent ↦
          if check_completed_order_or_entitlement organization_id intent.id intent.correlation_id
            repo
          then (repo, some intent_completed)
          else (
            record repo {
              intents = insert intent_id (supersede intent) repo.intents;
              recovery_requests =
                  cancel_pending_recovery_requests organization_id intent_id repo.recovery_requests;
            },
            none,
          )
    ]

abbrev pub new_request : CreateRecoveryRequestParams → ℕ → ℕ → CheckoutRecoveryRequestRecord
new_request params uuid now = record {
  id = or_else params.id uuid;
  organization_id = params.organization_id;
  customer_id = params.customer_id;
  source_checkout_intent_id = params.source_checkout_intent_id;
  token_hash = params.token_hash;
  status = pending;
  requested_by_actor_uid = params.requested_by_actor_uid;
  created_at = now;
  expires_at = params.expires_at;
  consumed_at = none;
}

unfoldable pub create_recovery_request :
    CreateRecoveryRequestParams
    → ℕ
    → ℕ
    → CheckoutRecoveryRepository
    → CheckoutRecoveryRepository × (RecoveryError ⊎ CheckoutRecoveryRequestRecord)
create_recovery_request params uuid now repo =
    elim (intent_of params.organization_id (lookup params.source_checkout_intent_id repo.intents)) [
      | none ↦ (repo, inl intent_not_found)
      | some intent ↦
          if not (intent.customer_id == params.customer_id)
          then (repo, inl customer_mismatch)
          else if check_completed_order_or_entitlement params.organization_id intent.id
              intent.correlation_id repo
          then (repo, inl intent_completed)
          else (
            record repo {
              recovery_requests = insert (or_else params.id uuid) (new_request params uuid now) (
                  cancel_pending_recovery_requests params.organization_id
                    params.source_checkout_intent_id repo.recovery_requests);
            },
            inr (new_request params uuid now),
          )
    ]

-- A pending request that has expired is shown as expired.
abbrev pub shown : ℕ → CheckoutRecoveryRequestRecord → CheckoutRecoveryRequestRecord
shown now request =
    if is_pending request.status && leb request.expires_at now
    then record request { status = expired }
    else request

-- Where an organization is asked for, the request is its own.
abbrev pub is_asked : Option ℕ → CheckoutRecoveryRequestRecord → Bool
is_asked none request = true
is_asked (some organization_id) request = request.organization_id == organization_id

-- The first request with the token.
unfoldable pub first_with_token :
    ℕ → Option ℕ → CheckoutRecoveryRepository → Option CheckoutRecoveryRequestRecord
first_with_token token_hash organization_id repo =
    elim (find? (λ request. request.token_hash == token_hash) (values repo.recovery_requests)) [
      | none ↦ none
      | some request ↦ if is_asked organization_id request then some request else none
    ]

unfoldable pub find_recovery_request_by_token_hash :
    ℕ → Option ℕ → ℕ → CheckoutRecoveryRepository → Option CheckoutRecoveryRequestRecord
find_recovery_request_by_token_hash token_hash organization_id now repo =
    elim (first_with_token token_hash organization_id repo) [
      | none ↦ none
      | some request ↦ some (shown now request)
    ]

abbrev pub shown_of :
    ℕ → ℕ → Option CheckoutRecoveryRequestRecord → Option CheckoutRecoveryRequestRecord
shown_of organization_id now none = none
shown_of organization_id now (some request) =
    if request.organization_id == organization_id then some (shown now request) else none

unfoldable pub get_recovery_request_by_id :
    ℕ → ℕ → ℕ → CheckoutRecoveryRepository → Option CheckoutRecoveryRequestRecord
get_recovery_request_by_id organization_id id now repo =
    shown_of organization_id now (lookup id repo.recovery_requests)

unfoldable pub find_intent_by_id : ℕ → ℕ → CheckoutRecoveryRepository → Option CheckoutIntentRecord
find_intent_by_id organization_id intent_id repo =
    intent_of organization_id (lookup intent_id repo.intents)

abbrev pub expire : CheckoutRecoveryRequestRecord → CheckoutRecoveryRequestRecord
expire request = record request { status = expired }

abbrev pub consume : ℕ → CheckoutRecoveryRequestRecord → CheckoutRecoveryRequestRecord
consume now request = record request { status = consumed; consumed_at = some now }

abbrev pub write_request :
    CheckoutRecoveryRequestRecord → CheckoutRecoveryRepository → CheckoutRecoveryRepository
write_request request repo = record repo {
  recovery_requests = insert request.id request repo.recovery_requests;
}

unfoldable pub consume_recovery_request :
    ConsumeRecoveryRequestParams
    → ℕ
    → CheckoutRecoveryRepository
    → CheckoutRecoveryRepository × (RecoveryError ⊎ CheckoutRecoveryRequestRecord)
consume_recovery_request params now repo =
    let consumed_at = or_else params.consumed_at now in
    elim (first_with_token params.token_hash params.organization_id repo) [
      | none ↦ (repo, inl request_not_found)
      | some request ↦
          if not (is_pending request.status)
          then (repo, inl (not_pending request.status))
          else if leb request.expires_at consumed_at
          then (write_request (expire request) repo, inl request_expired)
          else (write_request (consume consumed_at request) repo, inr (consume consumed_at request))
    ]
