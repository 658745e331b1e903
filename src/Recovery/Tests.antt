-- ===== src/Recovery/Tests.antt =====
-- Runs of the repository of packages/backend/src/checkout/checkout-recovery-repository.ts, and the
-- witnesses.
use festival.Recovery.Once.{consume_recovery_request_once, invalidate_intent-closes}
use festival.Recovery.Single.{Steps-closed, Steps-IsSingle}
use festival.Recovery.Repository.{
  add_recovery_request, add_intent, create_recovery_request, first_with_token, invalidate_intent,
  consume_recovery_request,
}
use festival.Recovery.Invariant.{no_requests-IsSingle, IsSingle}
use festival.Base.{[], false, ◌⊎◌, inr, inl, nat_eq, true, some, refl, none, ◌≡◌, lookup}
use festival.Checkout.Records.{CheckoutIntentRecord, failed, membership}
use festival.Recovery.Steps.{
  request_added, no_recoveries, Steps, here, next, intent_added, requested, token_used,
}
use festival.Recovery.Records.{
  pending, ConsumeRecoveryRequestParams, CreateRecoveryRequestParams, CheckoutRecoveryRequestRecord,
  CheckoutRecoveryRepository, consumed, cancelled, not_pending, request_not_found,
}

-- An intent of customer 2 that has failed.
abbrev intent : CheckoutIntentRecord
intent = record {
  id = 10;
  correlation_id = 11;
  organization_id = 1;
  customer_id = 2;
  session_id = 3;
  idempotency_key = 4;
  intent_type = membership;
  offering_id = some 5;
  has_entitlement_class = true;
  duration_days = some 365;
  festival_class_id = none;
  child_id = none;
  shopify_product_gid = 6;
  shopify_variant_gid = 7;
  has_policy_version = true;
  division_id = none;
  division_name_snapshot = none;
  staff_access_consent = false;
  amount = 900;
  currency_code = 8;
  cart_reference = none;
  status = failed;
  expires_at = 500;
  created_at = 100;
  has_line_identity_protocol = false;
  lines = [];
}

abbrev params : CreateRecoveryRequestParams
params = record {
  id = none;
  organization_id = 1;
  customer_id = 2;
  source_checkout_intent_id = 10;
  token_hash = 77;
  requested_by_actor_uid = 9;
  expires_at = 600;
}

abbrev use_of_token : ConsumeRecoveryRequestParams
use_of_token = record { token_hash = 77; organization_id = some 1; consumed_at = none }

abbrev with_request : CheckoutRecoveryRepository
with_request = (create_recovery_request params 20 200 (add_intent intent no_recoveries)).0

with_request-Steps : Steps no_recoveries with_request
unfolding add_intent
with_request-Steps = next (next here (intent_added intent)) (requested params 20 200 refl)

Steps-IsSingle_example : IsSingle with_request.recovery_requests
Steps-IsSingle_example = Steps-IsSingle no_requests-IsSingle with_request-Steps

abbrev token_request : CheckoutRecoveryRequestRecord
token_request = record {
  id = 20;
  organization_id = 1;
  customer_id = 2;
  source_checkout_intent_id = 10;
  token_hash = 77;
  status = consumed;
  requested_by_actor_uid = 9;
  created_at = 200;
  expires_at = 600;
  consumed_at = some 300;
}

abbrev after_use : CheckoutRecoveryRepository
after_use = (consume_recovery_request use_of_token 300 with_request).0

consumes : consume_recovery_request use_of_token 300 with_request ≡ (after_use, inr token_request)
unfolding consume_recovery_request first_with_token create_recovery_request add_intent
    festival.Recovery.Repository.check_completed_order_or_entitlement
    festival.Recovery.Repository.cancel_pending_recovery_requests
consumes = refl

-- A pending request for another intent, with the token of the first.
abbrev same_token : CheckoutRecoveryRequestRecord
same_token = record token_request {
  id = 22;
  source_checkout_intent_id = 12;
  status = pending;
  consumed_at = none;
}

-- A further request for the intent, with another token, and the one with the same token.
abbrev requested_again : CheckoutRecoveryRepository
requested_again =
    add_recovery_request same_token
      (create_recovery_request (record params { token_hash = 78 }) 21 310 after_use).0

requested_again-Steps : Steps after_use requested_again
unfolding consume_recovery_request first_with_token create_recovery_request add_intent
    festival.Recovery.Repository.check_completed_order_or_entitlement
    festival.Recovery.Repository.cancel_pending_recovery_requests
    festival.Recovery.Repository.is_pending_for
requested_again-Steps =
    next (next here (requested (record params { token_hash = 78 }) 21 310 refl))
      (request_added same_token refl (λ h. refl))

consume_recovery_request_once_example :
    (consume_recovery_request use_of_token 320 requested_again
      ≡ (requested_again, inl request_not_found))
    ⊎ (consume_recovery_request use_of_token 320 requested_again
        ≡ (requested_again, inl (not_pending consumed)))
consume_recovery_request_once_example =
    consume_recovery_request_once use_of_token use_of_token 300 320 with_request after_use
      requested_again token_request Steps-IsSingle_example consumes requested_again-Steps refl

found_after_use : lookup 20 after_use.recovery_requests ≡ some token_request
unfolding consume_recovery_request first_with_token create_recovery_request add_intent
    festival.Recovery.Repository.check_completed_order_or_entitlement
    festival.Recovery.Repository.cancel_pending_recovery_requests
found_after_use = refl

after_use-IsSingle : IsSingle after_use.recovery_requests
after_use-IsSingle =
    Steps-IsSingle no_requests-IsSingle (next with_request-Steps (token_used use_of_token 300))

Steps-closed_example : lookup 20 requested_again.recovery_requests ≡ some token_request
Steps-closed_example =
    Steps-closed 20 token_request after_use-IsSingle found_after_use refl requested_again-Steps

abbrev invalid : CheckoutRecoveryRepository
invalid = (invalidate_intent 1 10 with_request).0

invalidates : invalidate_intent 1 10 with_request ≡ (invalid, none)
unfolding invalidate_intent create_recovery_request add_intent
    festival.Recovery.Repository.check_completed_order_or_entitlement
invalidates = refl

abbrev cancelled_request : CheckoutRecoveryRequestRecord
cancelled_request = record token_request { status = cancelled; consumed_at = none }

first_invalid : first_with_token 77 (some 1) invalid ≡ some cancelled_request
unfolding first_with_token invalidate_intent create_recovery_request add_intent
    festival.Recovery.Repository.check_completed_order_or_entitlement
    festival.Recovery.Repository.cancel_pending_recovery_requests
    festival.Recovery.Repository.is_pending_for
first_invalid = refl

invalidate_intent-closes_example :
    consume_recovery_request use_of_token 300 invalid ≡ (invalid, inl (not_pending cancelled))
invalidate_intent-closes_example =
    invalidate_intent-closes 1 10 with_request invalid use_of_token 300 cancelled_request
      invalidates first_invalid refl refl
