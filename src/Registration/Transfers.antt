-- ===== src/Registration/Transfers.antt =====
-- `transferRegistration` and the capacity of the class that is transferred to.
use festival.Registration.Drops.{get_entitlement_own, get_entitlement-found}
use festival.Registration.Changes.{create_change_log}
use festival.Registration.Room.{transfer_updates-within_capacity}
use festival.Registration.Capacity.{assert_target_class_in_festival}
use festival.Registration.Seats.{promote_top_waitlisted-count, IsStore}
use festival.Registration.Service.{
  is_droppable, get_entitlement, DropTransferService, ServiceCalls, LogCalls, DropTransferOptions,
}
use festival.Entitlements.Repository.{ClassEntitlementRepository}
use festival.Registration.Records.{
  customer, system_actor, transfer, TransferRegistrationInput, Actor,
}
use festival.Registration.Operations.{change_log_input, droppable_statuses}
use festival.Registration.Transfer.{
  promote_if, transferred_status, transfer_updates, execute_transfer, transfer_found,
  transfer_registration,
}
use festival.Entitlements.Updates.{
  apply_updates, count_confirmed_class_entitlements, update_class_entitlement,
}
use festival.Entitlements.{status_eq, ClassEntitlementStatus, ClassEntitlement, confirmed}
use festival.Base.{
  true, nat_eq, or_else, insert-Keyed, refl, lookup_key, inl, Bool-cases, arith, lookup, inr,
  Option-cases, some, false, ◌==◌, Bool, ℕ, ◌≡◌, ◌≤◌,
}

transfer_updates-found :
    (e : ClassEntitlement) (class_id : ℕ) (status : ClassEntitlementStatus) (now : ℕ)
    → (repo : ClassEntitlementRepository) → IsStore repo
    → IsStore
        (update_class_entitlement e.organization_id e.id
          (transfer_updates class_id status)
          (some droppable_statuses)
          now
          repo).0
unfolding update_class_entitlement
transfer_updates-found e class_id status now repo store =
    elim (Option-cases (lookup e.id repo.entitlements)) [
      | inl n ↦ ground (arith, n, store)
      | inr (x, found) ↦
          let k = lookup_key (λ e. e.id) e.id x repo.entitlements store found in
          ground (
            arith,
            found,
            store,
            insert-Keyed (λ e. e.id) e.id (apply_updates (transfer_updates class_id status) now x)
                repo.entitlements k store,
          )
    ]

promote_if-count :
    (was_confirmed : Bool) (e : ClassEntitlement) (actor_uid : Actor) (calls : LogCalls)
    → (service : DropTransferService) (class_id : ℕ) → IsStore service.entitlements
    → e.festival_class_id == class_id ≡ false
    → count_confirmed_class_entitlements e.organization_id class_id
        (promote_if was_confirmed e actor_uid calls service).0.entitlements
      ≡ count_confirmed_class_entitlements e.organization_id class_id service.entitlements
promote_if-count false e actor_uid calls service class_id store other = refl
promote_if-count true e actor_uid calls service class_id store other = ground (
  arith,
  other,
  promote_top_waitlisted-count e.organization_id e.festival_class_id e.organization_id class_id
      actor_uid calls service store,
)

transfer_found-within_capacity :
    (e : ClassEntitlement) (room : ℕ) (input : TransferRegistrationInput) (calls : ServiceCalls)
    → (service : DropTransferService) → IsStore service.entitlements
    → e.festival_class_id == input.target_festival_class_id ≡ false
    → count_confirmed_class_entitlements e.organization_id input.target_festival_class_id
        service.entitlements
      ≤ room
    → count_confirmed_class_entitlements e.organization_id input.target_festival_class_id
        (transfer_found e room input calls service).0.entitlements
      ≤ room
unfolding transfer_found
transfer_found-within_capacity e room input calls service store other h =
    let target = input.target_festival_class_id in
    let now = calls.change.updated_at in
    let status = transferred_status e.organization_id target room service.entitlements in
    let update =
      update_class_entitlement e.organization_id e.id (transfer_updates target status)
        (some droppable_statuses) now service.entitlements in
    let within =
      transfer_updates-within_capacity e.organization_id e.id target room now service.entitlements
        h in
    let kept = transfer_updates-found e target status now service.entitlements store in
    elim (Option-cases update.1) [
      | inl n ↦ ground (arith, n, h)
      | inr (updated, n) ↦
          let log =
            create_change_log
              (change_log_input e updated transfer (or_else input.actor_uid system_actor)
                (or_else input.actor_role customer) input.reason)
              calls.change.change_log_id calls.change.logged_at service.changes in
          ground (
            arith,
            n,
            within,
            promote_if-count (status_eq e.status confirmed) e (or_else input.actor_uid system_actor)
                calls.promotion (record { entitlements = update.0; changes = log.0 }) target kept
                other,
          )
    ]

-- A transfer never takes a class above its capacity: if the class query gives the target class a
-- capacity, and the class has no more confirmed registrations than that, then it has no more after
-- the call, whether the call succeeds or not, promotions in the other class included. The repository
-- holds every entitlement under its identifier.
pub transfer_registration-within_capacity :
    (options : DropTransferOptions) (input : TransferRegistrationInput) (calls : ServiceCalls)
    → (service : DropTransferService) (e : ClassEntitlement) (room : ℕ)
    → IsStore service.entitlements
    → get_entitlement input.class_entitlement_id input.organization_id service.entitlements ≡ some e
    → assert_target_class_in_festival options.class_query e.organization_id
        (some e.festival_id)
        input.target_festival_class_id
      ≡ inr room
    → count_confirmed_class_entitlements e.organization_id input.target_festival_class_id
        service.entitlements
      ≤ room
    → count_confirmed_class_entitlements e.organization_id input.target_festival_class_id
        (transfer_registration options input calls service).0.entitlements
      ≤ room
unfolding transfer_registration execute_transfer
transfer_registration-within_capacity options input calls service e room store s a h =
    elim (Bool-cases (e.festival_class_id == input.target_festival_class_id)) [
      | inl c ↦ ground (arith, s, c, h)
      | inr c ↦ elim (Bool-cases (is_droppable e.status)) [
        | inr k ↦ ground (arith, s, c, k, h)
        | inl k ↦
            let (id, found) =
              get_entitlement-found input.class_entitlement_id input.organization_id
                service.entitlements e store s in
            let again : get_entitlement e.id (some e.organization_id) service.entitlements
                ≡ some e =
              get_entitlement_own e service.entitlements found in
            ground (
              arith,
              s,
              c,
              k,
              a,
              again,
              transfer_found-within_capacity e room input calls service store c h,
            )
      ]
    ]
