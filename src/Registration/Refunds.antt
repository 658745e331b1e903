-- ===== src/Registration/Refunds.antt =====
-- The refund of a dropped registration: `resolveRequestedRefundAmountCents`,
-- `assertVerifiedLineTargetedRefund` and `processDropRefund` of
-- packages/backend/src/registration/drop-transfer-service.ts. The provider that calls Shopify is a
-- parameter; a Shopify id of `""` is 0, and so
-- is a currency of `""`; `usd` is the text `"USD"`.
use festival.Entitlements.{ClassEntitlement}
use festival.Registration.Records.{
  invalid_amount, no_amount, refund_exceeds_paid, pending, different_order, allocation_mismatch,
  completed, no_refund_id, cents, missing_order_line_id, no_line_targeted_provider,
  missing_order_id, failed, refund_not_positive, not_one_allocation, provider_failure, zero_amount,
  partial_refund_unsupported, DropRegistrationInput, FailureReason, RefundEventStatus, AppError,
  RefundEvent, RequestedAmount,
}
use festival.Registration.Changes.{
  update_refund_event_status, create_refund_event, CreateRefundEventInput,
  UpdateRefundEventStatusInput, RegistrationChangeRepository,
}
use festival.Base.{
  true, false, or_else, [], ltb, ◌∷◌, not, none, inl, ◌&&◌, inr, List, Bool, ◌⊎◌, ◌==◌, Option,
  some, ℕ, if◌then◌else◌,
}

-- The texts that the code writes into a refund request.
pub data RefundReason : Type 0 where
  given_refund_reason : ℕ → RefundReason
  registration_dropped : RefundReason

-- `idempotencyKey` is a text made of `refundEventId` alone.
pub record RefundRequest : Type 0 where
  pub order_id : ℕ
  pub payment_intent_id : ℕ
  pub refund_event_id : ℕ
  pub shopify_order_line_id : ℕ
  pub amount_cents : ℕ
  pub currency : ℕ
  pub reason : RefundReason

pub record RefundAllocation : Type 0 where
  pub shopify_order_line_id : ℕ
  pub amount_cents : ℕ
  pub currency : ℕ

-- A refund id that is missing or `""` is `none`.
pub record RefundResult : Type 0 where
  pub id : Option ℕ
  pub order_id : ℕ
  pub allocations : List RefundAllocation

-- No client, one without line-targeted refunds, or one with them, whose `createRefund` returns a
-- result or throws an error with a message.
pub data RefundProvider : Type 0 where
  no_provider order_level : RefundProvider
  line_targeted : (RefundRequest → ℕ ⊎ RefundResult) → RefundProvider

unfoldable pub resolve_requested_refund_amount_cents :
    ClassEntitlement → RequestedAmount → AppError ⊎ ℕ
resolve_requested_refund_amount_cents entitlement no_amount = inr entitlement.paid_amount_cents
resolve_requested_refund_amount_cents entitlement invalid_amount = inl refund_not_positive
resolve_requested_refund_amount_cents entitlement (cents n) =
    if n == 0
    then inl refund_not_positive
    else if ltb entitlement.paid_amount_cents n
    then inl refund_exceeds_paid
    else inr n

abbrev pub is_requested : RefundRequest → RefundAllocation → Bool
is_requested request allocation =
    allocation.shopify_order_line_id == request.shopify_order_line_id
    && allocation.amount_cents == request.amount_cents
    && allocation.currency == request.currency

-- The one allocation must be the one that was requested.
abbrev pub verify_allocations : RefundRequest → ℕ → List RefundAllocation → FailureReason ⊎ ℕ
verify_allocations request id [] = inl not_one_allocation
verify_allocations request id (allocation ∷ []) =
    if is_requested request allocation then inr id else inl allocation_mismatch
verify_allocations request id (_ ∷ _ ∷ _) = inl not_one_allocation

-- The refund's id, or the error that the check throws.
unfoldable pub assert_verified_line_targeted_refund :
    RefundRequest → RefundResult → FailureReason ⊎ ℕ
assert_verified_line_targeted_refund request result = elim result.id [
  | none ↦ inl no_refund_id
  | some id ↦
      if result.order_id == request.order_id
      then verify_allocations request id result.allocations
      else inl different_order
]

-- `createRefund`, and the check of what it returns.
abbrev pub verified_refund : RefundRequest → ℕ ⊎ RefundResult → FailureReason ⊎ ℕ
verified_refund request (inl message) = inl (provider_failure message)
verified_refund request (inr result) = assert_verified_line_targeted_refund request result

-- The identifier and the two times that a refund takes.
pub record RefundCalls : Type 0 where
  pub refund_event_id : ℕ
  pub created_at : ℕ
  pub updated_at : ℕ

-- The end of a refund: the event takes the provider's answer.
unfoldable pub settle_refund :
    RefundEvent
    → FailureReason ⊎ ℕ
    → ℕ
    → RegistrationChangeRepository
    → RegistrationChangeRepository × RefundEvent
settle_refund event answer now changes =
    let input : UpdateRefundEventStatusInput = record {
      id = event.id;
      organization_id = some event.organization_id;
      status = elim answer [ inl _ ↦ failed | inr _ ↦ completed ];
      shopify_refund_id = elim answer [ inl _ ↦ none | inr id ↦ some (some id) ];
      failure_reason = elim answer [ inl reason ↦ some (some reason) | inr _ ↦ none ];
    } in
    let (changes', updated) = update_refund_event_status input now changes in
    (changes', or_else updated event)

-- `entitlement.paidCurrencyCode || "USD"`
abbrev pub refund_currency : ℕ → ClassEntitlement → ℕ
refund_currency usd e = if e.paid_currency_code == 0 then usd else e.paid_currency_code

-- The event that is first written.
unfoldable pub drop_refund_event :
    ℕ → ClassEntitlement → ℕ → ℕ → RefundEventStatus → Option FailureReason → CreateRefundEventInput
drop_refund_event usd entitlement change_log_id amount status failure_reason = record {
  organization_id = entitlement.organization_id;
  registration_change_log_id = some change_log_id;
  class_entitlement_id = some entitlement.id;
  shopify_order_id = some entitlement.shopify_order_gid;
  shopify_order_line_id = some entitlement.shopify_order_line_gid;
  amount_cents = amount;
  currency = refund_currency usd entitlement;
  status = status;
  failure_reason = failure_reason;
}

-- Why no refund can be asked for, if so.
unfoldable pub unrefundable : ClassEntitlement → ℕ → Option FailureReason
unrefundable e amount =
    if amount == 0
    then some zero_amount
    else if e.shopify_order_gid == 0
    then some missing_order_id
    else if e.shopify_order_line_gid == 0
    then some missing_order_line_id
    else none

-- Why a person has to refund, if so.
abbrev pub manual_reason : RefundProvider → Bool → Option FailureReason
manual_reason _ true = some partial_refund_unsupported
manual_reason (line_targeted _) false = none
manual_reason _ false = some no_line_targeted_provider

unfoldable pub line_refund_request : ℕ → ClassEntitlement → ℕ → ℕ → RefundReason → RefundRequest
line_refund_request usd entitlement amount refund_event_id reason = record {
  order_id = entitlement.shopify_order_gid;
  payment_intent_id = entitlement.checkout_intent_id;
  refund_event_id = refund_event_id;
  shopify_order_line_id = entitlement.shopify_order_line_gid;
  amount_cents = amount;
  currency = refund_currency usd entitlement;
  reason = reason;
}

-- The call of the provider, where it is made, and its answer on the event.
abbrev pub request_refund :
    RefundProvider
    → Bool
    → RefundRequest
    → RefundEvent
    → ℕ
    → RegistrationChangeRepository
    → RegistrationChangeRepository × RefundEvent
request_refund (line_targeted create_refund) false request event now changes =
    settle_refund event (verified_refund request (create_refund request)) now changes
request_refund _ _ request event now changes = (changes, event)

-- The amount is the one that `resolveRequestedRefundAmountCents` gave.
unfoldable pub refund_amount :
    ℕ
    → RefundProvider
    → ClassEntitlement
    → ℕ
    → ℕ
    → RefundReason
    → RefundCalls
    → RegistrationChangeRepository
    → RegistrationChangeRepository × RefundEvent
refund_amount usd provider e change_log_id amount reason calls changes =
    elim (unrefundable e amount) [
      | some why ↦
          create_refund_event (drop_refund_event usd e change_log_id amount failed (some why))
            calls.refund_event_id calls.created_at changes
      | none ↦
          let is_partial = not (amount == e.paid_amount_cents) in
          let (changes', event) =
            create_refund_event
              (drop_refund_event usd e change_log_id amount pending
                (manual_reason provider is_partial))
              calls.refund_event_id calls.created_at changes in
          request_refund provider is_partial (line_refund_request usd e amount event.id reason)
            event calls.updated_at changes'
    ]

-- `input.refundReason ?? input.reason ?? "Registration dropped"`
abbrev pub refund_reason_of : Option ℕ → Option ℕ → RefundReason
refund_reason_of (some r) _ = given_refund_reason r
refund_reason_of none (some r) = given_refund_reason r
refund_reason_of none none = registration_dropped

unfoldable pub process_drop_refund :
    ℕ
    → RefundProvider
    → ClassEntitlement
    → ℕ
    → DropRegistrationInput
    → RefundCalls
    → RegistrationChangeRepository
    → RegistrationChangeRepository × (AppError ⊎ RefundEvent)
process_drop_refund usd provider e change_log_id input calls changes =
    elim (resolve_requested_refund_amount_cents e input.refund_amount_cents) [
      | inl err ↦ (changes, inl err)
      | inr amount ↦
          let (changes', event) =
            refund_amount usd provider e change_log_id amount
              (refund_reason_of input.refund_reason input.reason) calls changes in
          (changes', inr event)
    ]
