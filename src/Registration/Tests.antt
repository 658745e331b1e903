-- ===== src/Registration/Tests.antt =====
-- Runs of the registration changes of packages/backend/src/registration, and the witnesses.
use festival.Entitlements.Updates.{
  class_filter, passes, list_class_entitlements, is_confirmed_in, update_class_entitlement,
  count_confirmed_class_entitlements,
}
use festival.Entitlements.Repository.{ClassEntitlementRepository}
use festival.Registration.Completed.{process_drop_refund-IsRefundEvent, IsRefundEvent}
use festival.Registration.Detached.{transfer_registration-IsDetached}
use festival.Registration.Operations.{droppable_statuses, drop_registration}
use festival.Registration.Transfer.{transfer_registration}
use festival.Registration.Changes.{
  get_refund_event, update_refund_event_status, new_refund_event, create_refund_event,
  RegistrationChangeRepository,
}
use festival.Registration.Capacity.{something_else, a_query, thrown, FestivalClassQuery}
use festival.Registration.Refunds.{
  settle_refund, assert_verified_line_targeted_refund, registration_dropped, line_refund_request,
  drop_refund_event, no_provider, line_targeted, RefundResult, unrefundable, refund_amount,
  RefundRequest, resolve_requested_refund_amount_cents, process_drop_refund,
}
use festival.Registration.Service.{
  promotes_before, promotion_queue, ServiceCalls, DropTransferService,
}
use festival.Registration.Records.{
  completed, no_amount, TransferRegistrationInput, AppError, DropRegistrationInput, RefundEvent,
}
use festival.Base.{
  ◌<◌, All, arith, ◌≤◌, nat_eq, inr, false, inl, ◌≡◌, true, [], values, ◌⊎◌, ◌+◌, none, ◌∷◌, some,
  map, ℕ, refl,
}
use festival.Entitlements.{
  cancelled, ClassEntitlementStatus, confirmed, waitlisted, ClassEntitlement,
}

-- Entitlement 1 of class 7 is confirmed, and 2 and 3 wait for it, 3 created before 2.
abbrev pub entitlement : ℕ → ClassEntitlementStatus → ℕ → ClassEntitlement
entitlement id status created_at = record {
  id = id;
  organization_id = 5;
  festival_id = 6;
  festival_class_id = 7;
  parent_customer_id = 8;
  child_id = id + 20;
  checkout_intent_id = id + 30;
  checkout_intent_line_id = none;
  shopify_order_gid = id + 40;
  shopify_order_line_gid = id + 50;
  paid_amount_cents = 900;
  paid_currency_code = 3;
  status = status;
  admitted_cart_reference = none;
  capacity_at_allocation = none;
  placed_count_before_allocation = none;
  created_at = created_at;
  updated_at = created_at;
}

abbrev pub three_entitlements : DropTransferService
three_entitlements = record {
  entitlements = record {
    entitlements =
        (1, entitlement 1 confirmed 100)
        ∷ (2, entitlement 2 waitlisted 103)
        ∷ (3, entitlement 3 waitlisted 102)
        ∷ [];
    by_order_line = [];
    by_intent = [];
    by_intent_line = [];
  };
  changes = record { change_logs = []; refund_events = [] };
}

abbrev pub drop_with_refund : DropRegistrationInput
drop_with_refund = record {
  class_entitlement_id = 1;
  organization_id = some 5;
  actor_uid = none;
  actor_role = none;
  reason = none;
  request_refund = true;
  issue_refund = false;
  refund_amount_cents = no_amount;
  refund_reason = none;
}

abbrev pub calls : ServiceCalls
calls = record {
  change = record { updated_at = 200; change_log_id = 201; logged_at = 202 };
  promotion = record { updated_at = 203; change_log_id = 204; logged_at = 205 };
  refund = record { refund_event_id = 206; created_at = 207; updated_at = 208 };
}

-- A provider that does what it is asked for.
abbrev honest : RefundRequest → ℕ ⊎ RefundResult
honest request = inr (record {
  id = some 99;
  order_id = request.order_id;
  allocations =
      record {
        shopify_order_line_id = request.shopify_order_line_id;
        amount_cents = request.amount_cents;
        currency = request.currency;
      }
      ∷ [];
})

abbrev refund_run : RegistrationChangeRepository × (AppError ⊎ RefundEvent)
refund_run =
    process_drop_refund 1 (line_targeted honest) (entitlement 1 confirmed 100) 201 drop_with_refund
      calls.refund three_entitlements.changes

abbrev refunded : RefundEvent
refunded = record {
  id = 206;
  organization_id = 5;
  registration_change_log_id = some 201;
  class_entitlement_id = some 1;
  shopify_order_id = some 41;
  shopify_order_line_id = some 51;
  shopify_refund_id = some 99;
  amount_cents = 900;
  currency = 3;
  status = completed;
  failure_reason = none;
  created_at = 207;
  updated_at = 208;
}

refund_run-refunded : refund_run.1 ≡ inr refunded
unfolding process_drop_refund resolve_requested_refund_amount_cents refund_amount unrefundable
    drop_refund_event create_refund_event new_refund_event line_refund_request
    assert_verified_line_targeted_refund settle_refund update_refund_event_status get_refund_event
refund_run-refunded = refl

process_drop_refund-IsRefundEvent_example :
    (amount : ℕ) × (resolve_requested_refund_amount_cents (entitlement 1 confirmed 100) no_amount
      ≡ inr amount)
    × (amount ≤ 900)
    × IsRefundEvent
        (line_targeted honest)
        (entitlement 1 confirmed 100)
        amount
        (line_refund_request 1 (entitlement 1 confirmed 100) amount 206 registration_dropped)
        refunded
process_drop_refund-IsRefundEvent_example =
    process_drop_refund-IsRefundEvent 1 (line_targeted honest) (entitlement 1 confirmed 100) 201
      drop_with_refund calls.refund three_entitlements.changes refunded refund_run-refunded

-- A drop promotes the waitlisted entitlement that was created earliest.
drop_promotes :
    map
      (λ e. e.status)
      (values
        (drop_registration
          (record { provider = no_provider; class_query = none; usd = 1 })
          drop_with_refund
          calls
          three_entitlements).0.entitlements.entitlements)
    ≡ cancelled ∷ waitlisted ∷ confirmed ∷ []
unfolding drop_registration festival.Registration.Service.get_entitlement
    festival.Entitlements.Repository.get_class_entitlement
    festival.Registration.Service.is_droppable resolve_requested_refund_amount_cents
    festival.Registration.Operations.drop_found
    festival.Entitlements.Updates.update_class_entitlement
    festival.Registration.Operations.after_confirmed_drop
    festival.Registration.Service.promote_top_waitlisted
    festival.Registration.Service.promotion_queue festival.Base.sort
    festival.Entitlements.Updates.list_class_entitlements festival.Entitlements.Updates.passes
    festival.Registration.Service.promotes_before festival.Registration.Service.promote
    festival.Entitlements.Updates.update_class_entitlement_status
    festival.Registration.Operations.drop_updated
drop_promotes = refl

abbrev detached_query : FestivalClassQuery
detached_query = record {
  get_class_capacity = none;
  find_festival_class_configuration_by_id = some (λ o f c. inl thrown);
  get_capacity = none;
  list_festival_class_configurations = none;
  get = none;
  own_field = λ c. something_else;
}

abbrev pub to_class_9 : TransferRegistrationInput
to_class_9 = record {
  class_entitlement_id = 1;
  target_festival_class_id = 9;
  organization_id = some 5;
  actor_uid = none;
  actor_role = none;
  reason = none;
}

transfer_registration-IsDetached_example :
    (err : AppError) × (transfer_registration
        (record { provider = no_provider; class_query = some (a_query detached_query); usd = 1 })
        to_class_9
        calls
        three_entitlements
      ≡ (three_entitlements, inl err))
transfer_registration-IsDetached_example =
    transfer_registration-IsDetached no_provider detached_query 1
      (refl, ((λ o f c. inl thrown), refl, λ o f c. refl)) to_class_9 calls three_entitlements
