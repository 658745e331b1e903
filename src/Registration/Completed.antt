-- ===== src/Registration/Completed.antt =====
-- What stands behind a refund of a dropped registration.
use festival.Registration.Changes.{
  CreateRefundEventInput, new_refund_event, create_refund_event, get_refund_event,
  RegistrationChangeRepository, update_refund_event_status,
}
use festival.Registration.Records.{
  DropRegistrationInput, pending, failed, FailureReason, invalid_amount, no_amount, cents,
  completed, RefundEvent, RequestedAmount,
}
use festival.Entitlements.{ClassEntitlement}
use festival.Registration.Refunds.{
  manual_reason, drop_refund_event, unrefundable, RefundReason, refund_amount, refund_reason_of,
  order_level, no_provider, line_refund_request, RefundCalls, request_refund, process_drop_refund,
  verified_refund, settle_refund, is_requested, verify_allocations, RefundAllocation,
  assert_verified_line_targeted_refund, line_targeted, RefundResult, RefundRequest, RefundProvider,
  resolve_requested_refund_amount_cents,
}
use festival.Base.{
  subst, lookup-insert, not, ◌∙◌, ap, refl, Sum-cases, true, ◌==◌, Bool-cases, [], inl, ◌∷◌,
  Option-cases, some, List, ◌⊎◌, arith, inr, ◌≡◌, ℕ, ◌≤◌,
}

-- An amount that a drop may refund is paid at most.
pub resolve_requested_refund_amount_cents_le :
    (e : ClassEntitlement) (asked : RequestedAmount) (n : ℕ)
    → resolve_requested_refund_amount_cents e asked ≡ inr n
    → n ≤ e.paid_amount_cents
unfolding resolve_requested_refund_amount_cents
resolve_requested_refund_amount_cents_le e no_amount n h = ground arith
resolve_requested_refund_amount_cents_le e invalid_amount n h = ground arith
resolve_requested_refund_amount_cents_le e (cents m) n h = ground arith

-- What `assertVerifiedLineTargetedRefund` lets through: the provider's result names the order and
-- has one allocation, for the line, the amount and the currency that were asked for.
abbrev pub IsVerified : RefundRequest → RefundResult → ℕ → Type 0
IsVerified request result id =
    (result.id ≡ some id)
    × (result.order_id ≡ request.order_id)
    × ((allocation : RefundAllocation) × (result.allocations ≡ allocation ∷ [])
        × (allocation.shopify_order_line_id ≡ request.shopify_order_line_id)
        × (allocation.amount_cents ≡ request.amount_cents)
        × (allocation.currency ≡ request.currency))

verify_allocations_sound :
    (request : RefundRequest) (id : ℕ) (allocations : List RefundAllocation) (id' : ℕ)
    → verify_allocations request id allocations ≡ inr id'
    → (id ≡ id')
      × ((allocation : RefundAllocation) × (allocations ≡ allocation ∷ [])
          × (is_requested request allocation ≡ true))
verify_allocations_sound request id [] id' h = ground arith
verify_allocations_sound request id (a ∷ []) id' h = (ground arith, (a, refl, ground arith))
verify_allocations_sound request id (a ∷ b ∷ rest) id' h = ground arith

assert-IsVerified :
    (request : RefundRequest) (result : RefundResult) (id : ℕ)
    → assert_verified_line_targeted_refund request result ≡ inr id
    → IsVerified request result id
unfolding assert_verified_line_targeted_refund
assert-IsVerified request result id h = elim (Option-cases result.id) [
  | inl e ↦ ground arith
  | inr (id', e) ↦ elim (Bool-cases (result.order_id == request.order_id)) [
    | inr o ↦ ground arith
    | inl o ↦
        let (q, (a, one, r)) =
          verify_allocations_sound request id' result.allocations id (ground (arith, h)) in
        (ground arith, ground arith, (a, one, ground arith, ground arith, ground arith))
  ]
]

-- What stands behind an event of a refund: what the provider, called with the request for this
-- event, returned.
abbrev pub IsCompletedBy : RefundProvider → RefundRequest → RefundEvent → Type 0
IsCompletedBy provider request event =
    (create_refund : RefundRequest → ℕ ⊎ RefundResult) × (result : RefundResult) × (id : ℕ)
    × (provider ≡ line_targeted create_refund)
    × (create_refund request ≡ inr result)
    × IsVerified request result id
    × (event.shopify_refund_id ≡ some id)

settle_refund-event :
    (event : RefundEvent) (answer : FailureReason ⊎ ℕ) (now : ℕ)
    → (changes : RegistrationChangeRepository)
    → get_refund_event (some event.organization_id) event.id changes ≡ some event
    → (settle_refund event answer now changes).1 ≡ record event {
      status = elim answer [ inl _ ↦ failed | inr _ ↦ completed ];
      shopify_refund_id = elim answer [ inl _ ↦ event.shopify_refund_id | inr id ↦ some id ];
      failure_reason = elim answer [ inl reason ↦ some reason | inr _ ↦ event.failure_reason ];
      updated_at = now;
    }
unfolding settle_refund update_refund_event_status get_refund_event
settle_refund-event event (inl reason) now changes h = ground (arith, h)
settle_refund-event event (inr id) now changes h = ground (arith, h)

refund-IsVerified :
    (request : RefundRequest) (outcome : ℕ ⊎ RefundResult) (id : ℕ)
    → verified_refund request outcome ≡ inr id
    → (result : RefundResult) × (outcome ≡ inr result) × IsVerified request result id
refund-IsVerified request (inl message) id h = ground arith
refund-IsVerified request (inr result) id h = (result, refl, assert-IsVerified request result id h)

-- A refund that the provider is asked for keeps its amount, and is completed only by a result of
-- the provider that passes the check.
settle_refund-IsCompletedBy :
    (create_refund : RefundRequest → ℕ ⊎ RefundResult) (request : RefundRequest)
    → (event : RefundEvent) (now : ℕ) (changes : RegistrationChangeRepository)
    → get_refund_event (some event.organization_id) event.id changes ≡ some event
    → (let settled =
          (settle_refund event (verified_refund request (create_refund request)) now changes).1 in
        (settled.amount_cents ≡ event.amount_cents)
        × (settled.status ≡ completed
            → IsCompletedBy (line_targeted create_refund) request settled))
settle_refund-IsCompletedBy create_refund request event now changes h =
    elim (Sum-cases (verified_refund request (create_refund request))) [
      | inl (reason, v) ↦ ground (arith, settle_refund-event event (inl reason) now changes h)
      | inr (id, v) ↦
          let (result, r, s) = refund-IsVerified request (create_refund request) id v in
          let e = settle_refund-event event (inr id) now changes h in
          (
            ap (λ answer. (settle_refund event answer now changes).1.amount_cents) v
                ∙ ap (λ settled. settled.amount_cents) e,
            λ c. (
              create_refund,
              result,
              id,
              refl,
              r,
              s,
              ap (λ answer. (settle_refund event answer now changes).1.shopify_refund_id) v
                  ∙ ap (λ settled. settled.shopify_refund_id) e,
            ),
          )
    ]

-- What an event of a refund of `amount` cents is.
abbrev pub IsRefundEvent :
    RefundProvider → ClassEntitlement → ℕ → RefundRequest → RefundEvent → Type 0
IsRefundEvent provider e amount request event =
    (event.amount_cents ≡ amount)
    × (event.status ≡ completed
        → (amount ≡ e.paid_amount_cents) × IsCompletedBy provider request event)

created_refund_event :
    (input : CreateRefundEventInput) (uuid now : ℕ) (changes : RegistrationChangeRepository)
    → (let (changes', event) = create_refund_event input uuid now changes in
        get_refund_event (some event.organization_id) event.id changes' ≡ some event)
unfolding create_refund_event get_refund_event new_refund_event
created_refund_event input uuid now changes =
    ground (arith, lookup-insert uuid (new_refund_event input uuid now) changes.refund_events)

-- A call that asks no provider leaves a pending event.
request_refund-IsRefundEvent :
    (provider : RefundProvider) (e : ClassEntitlement) (amount : ℕ) (request : RefundRequest)
    → (event : RefundEvent) (now : ℕ) (changes : RegistrationChangeRepository)
    → get_refund_event (some event.organization_id) event.id changes ≡ some event
    → event.status ≡ pending
    → event.amount_cents ≡ amount
    → IsRefundEvent provider e amount request
        (request_refund provider (not (amount == e.paid_amount_cents)) request event now changes).1
request_refund-IsRefundEvent no_provider e amount request event now changes h p a = ground arith
request_refund-IsRefundEvent order_level e amount request event now changes h p a = ground arith
request_refund-IsRefundEvent (line_targeted create_refund) e amount request event now changes h p
      a =
    elim (Bool-cases (amount == e.paid_amount_cents)) [
      | inr q ↦ simp q (a, λ c. ground arith)
      | inl q ↦
          let (s, t) = settle_refund-IsCompletedBy create_refund request event now changes h in
          simp q (s ∙ a, λ c. (ground arith, t c))
    ]

refund_amount-IsRefundEvent :
    (usd : ℕ) (shop : RefundProvider) (e : ClassEntitlement) (change_log_id amount : ℕ)
    → (reason : RefundReason) (calls : RefundCalls) (changes : RegistrationChangeRepository)
    → IsRefundEvent shop e amount
        (line_refund_request usd e amount calls.refund_event_id reason)
        (refund_amount usd shop e change_log_id amount reason calls changes).1
unfolding refund_amount create_refund_event new_refund_event drop_refund_event
refund_amount-IsRefundEvent usd shop e change_log_id amount reason calls changes =
    let request = line_refund_request usd e amount calls.refund_event_id reason in
    let is_partial = not (amount == e.paid_amount_cents) in
    let input =
      drop_refund_event usd e change_log_id amount pending (manual_reason shop is_partial) in
    elim (Option-cases (unrefundable e amount)) [
      | inr (why, u) ↦ rw (refund_amount, u) (refl, λ c. ground arith)
      | inl u ↦
          rw (refund_amount, u)
            (request_refund-IsRefundEvent shop e amount request
              (create_refund_event input calls.refund_event_id calls.created_at changes).1
              calls.updated_at
              (create_refund_event input calls.refund_event_id calls.created_at changes).0
              (created_refund_event input calls.refund_event_id calls.created_at changes) refl refl)
    ]

-- The refund of a dropped registration, if it is written at all, is of the amount that the caller
-- asks for (the paid amount where the caller names none), which is paid at most. It is completed
-- only where that is the whole paid amount and the provider, called for this event's identifier
-- and the entitlement's order line, returned a result with the same order and one allocation for
-- the same line, amount and currency, whose refund id the event then holds.
pub process_drop_refund-IsRefundEvent :
    (usd : ℕ) (shop : RefundProvider) (e : ClassEntitlement) (change_log_id : ℕ)
    → (input : DropRegistrationInput) (calls : RefundCalls)
    → (changes : RegistrationChangeRepository) (event : RefundEvent)
    → (process_drop_refund usd shop e change_log_id input calls changes).1 ≡ inr event
    → (amount : ℕ) × (resolve_requested_refund_amount_cents e input.refund_amount_cents
        ≡ inr amount)
      × (amount ≤ e.paid_amount_cents)
      × IsRefundEvent shop e amount
          (line_refund_request usd e amount calls.refund_event_id
            (refund_reason_of input.refund_reason input.reason))
          event
unfolding process_drop_refund
process_drop_refund-IsRefundEvent usd shop e change_log_id input calls changes event h =
    elim (Sum-cases (resolve_requested_refund_amount_cents e input.refund_amount_cents)) [
      | inl (err, r) ↦ ground arith
      | inr (amount, r) ↦
          let reason = refund_reason_of input.refund_reason input.reason in
          let refunded : (refund_amount usd shop e change_log_id amount reason calls changes).1
              ≡ event =
            ground (arith, h, r) in
          (
            amount,
            r,
            resolve_requested_refund_amount_cents_le e input.refund_amount_cents amount r,
            subst
                (IsRefundEvent shop e amount
                  (line_refund_request usd e amount calls.refund_event_id reason))
                refunded
                (refund_amount-IsRefundEvent usd shop e change_log_id amount reason calls changes),
          )
    ]
