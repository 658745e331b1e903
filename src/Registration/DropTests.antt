-- ===== src/Registration/DropTests.antt =====
-- Witnesses for the drops and transfers of packages/backend/src/registration: entitlement 1 of class
-- 7 is confirmed, 2 and 3 wait for it.
use festival.Registration.Order.{promote_top_waitlisted-IsPromotion, IsPromotion}
use festival.Registration.Conserved.{drop_registration-count}
use festival.Registration.Drops.{is_empty}
use festival.Registration.Transfers.{transfer_registration-within_capacity}
use festival.Registration.Dropped.{drop_registration_again}
use festival.Registration.Operations.{drop_registration}
use festival.Registration.Transfer.{transfer_registration}
use festival.Registration.Seats.{IsStore}
use festival.Registration.Refunds.{no_provider}
use festival.Registration.Capacity.{
  a_function, a_number, at_least_zero, assert_target_class_in_festival,
}
use festival.Registration.Service.{
  promote_top_waitlisted, DropTransferOptions, get_entitlement, DropTransferService,
}
use festival.Entitlements.{confirmed, ClassEntitlement}
use festival.Entitlements.Updates.{is_confirmed_in, count_confirmed_class_entitlements}
use festival.Registration.Records.{
  customer, system_actor, already_cancelled, drop, AppError, RegistrationChangeLog,
  DropRegistrationResult,
}
use festival.Base.{◌&&◌, if◌then◌else◌, arith, ◌≤◌, ◌+◌, [], inl, ◌⊎◌, inr, some, none, refl, ◌≡◌}
use festival.Registration.Tests.{
  three_entitlements, drop_with_refund, calls, to_class_9, entitlement,
}

abbrev no_queries : DropTransferOptions
no_queries = record { provider = no_provider; class_query = none; usd = 1 }

three_IsStore : IsStore three_entitlements.entitlements
three_IsStore = (refl, refl, (refl, refl, (refl, refl, tt)))

abbrev update_run : DropTransferService × (AppError ⊎ DropRegistrationResult)
update_run = drop_registration no_queries drop_with_refund calls three_entitlements

abbrev result_of :
    AppError ⊎ DropRegistrationResult → DropRegistrationResult → DropRegistrationResult
result_of (inl _) other = other
result_of (inr result) other = result

abbrev log_of_nothing : RegistrationChangeLog
log_of_nothing = record {
  id = 0;
  organization_id = 0;
  festival_id = none;
  class_entitlement_id = 0;
  action = drop;
  actor_uid = system_actor;
  actor_role = customer;
  previous_state = record {
    status = confirmed;
    festival_class_id = 0;
    festival_id = none;
    updated_at = 0;
  };
  new_state = record {
    status = confirmed;
    festival_class_id = 0;
    festival_id = none;
    updated_at = 0;
  };
  reason = none;
  created_at = 0;
}

-- What the drop answers.
abbrev dropped : DropRegistrationResult
dropped = result_of update_run.1 (record {
  class_entitlement = entitlement 1 confirmed 100;
  change_log = log_of_nothing;
  refund_event = none;
  promoted_waitlist_entitlements = [];
})

update_run-dropped :
    drop_registration no_queries drop_with_refund calls three_entitlements
    ≡ (update_run.0, inr dropped)
unfolding drop_registration get_entitlement festival.Entitlements.Repository.get_class_entitlement
    festival.Registration.Service.is_droppable
    festival.Registration.Refunds.resolve_requested_refund_amount_cents
    festival.Registration.Operations.drop_found
    festival.Entitlements.Updates.update_class_entitlement
    festival.Registration.Operations.drop_updated
    festival.Registration.Operations.after_confirmed_drop
    festival.Registration.Refunds.process_drop_refund
update_run-dropped = refl

drop_registration-count_example :
    (e : ClassEntitlement) × (get_entitlement 1 (some 5) three_entitlements.entitlements ≡ some e)
    × (count_confirmed_class_entitlements 5 7 update_run.0.entitlements
          + (if is_confirmed_in 5 7 e && is_empty dropped.promoted_waitlist_entitlements
              then 1
              else 0)
        ≡ count_confirmed_class_entitlements 5 7 three_entitlements.entitlements)
drop_registration-count_example =
    drop_registration-count no_queries drop_with_refund calls three_entitlements update_run.0
      dropped 5 7 three_IsStore update_run-dropped

drop_registration_again_example :
    drop_registration no_queries drop_with_refund calls update_run.0
    ≡ (update_run.0, inl already_cancelled)
drop_registration_again_example =
    drop_registration_again no_queries no_queries drop_with_refund drop_with_refund calls calls
      three_entitlements update_run.0 dropped three_IsStore update_run-dropped refl refl

abbrev two_places : DropTransferOptions
two_places = record {
  provider = no_provider;
  class_query = some (a_function (λ c o f. a_number (at_least_zero 2)));
  usd = 1;
}

to_class_9-two_places : assert_target_class_in_festival two_places.class_query 5 (some 6) 9 ≡ inr 2
unfolding assert_target_class_in_festival festival.Registration.Capacity.target_configuration
    festival.Registration.Capacity.resolve_class_capacity
to_class_9-two_places = refl

found_1 :
    get_entitlement 1 (some 5) three_entitlements.entitlements ≡ some (entitlement 1 confirmed 100)
unfolding get_entitlement festival.Entitlements.Repository.get_class_entitlement
found_1 = refl

none_in_9 : count_confirmed_class_entitlements 5 9 three_entitlements.entitlements ≤ 2
unfolding count_confirmed_class_entitlements is_confirmed_in
none_in_9 = omega arith

transfer_registration-within_capacity_example :
    count_confirmed_class_entitlements 5 9
      (transfer_registration two_places to_class_9 calls three_entitlements).0.entitlements
    ≤ 2
transfer_registration-within_capacity_example =
    transfer_registration-within_capacity two_places to_class_9 calls three_entitlements
      (entitlement 1 confirmed 100) 2 three_IsStore found_1 to_class_9-two_places none_in_9

promote_top_waitlisted-IsPromotion_example :
    let (after, result) =
      promote_top_waitlisted 5 7 system_actor calls.promotion three_entitlements in
    IsPromotion 5 7 three_entitlements after result
promote_top_waitlisted-IsPromotion_example =
    promote_top_waitlisted-IsPromotion 5 7 system_actor calls.promotion three_entitlements
      three_IsStore
