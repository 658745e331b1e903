-- ===== src/Registration/Transfer.antt =====
-- `transferRegistration` and `promoteRegistration` of
-- packages/backend/src/registration/drop-transfer-service.ts, each with all its checks and writes.
use festival.Registration.Operations.{droppable_statuses, change_log_input}
use festival.Registration.Capacity.{assert_target_class_in_festival}
use festival.Registration.Changes.{create_change_log}
use festival.Entitlements.Updates.{
  class_filter, update_class_entitlement, list_class_entitlements, EntitlementUpdates,
}
use festival.Registration.Service.{
  promote, is_droppable, get_entitlement, promote_top_waitlisted, ServiceCalls, DropTransferService,
  DropTransferOptions, LogCalls,
}
use festival.Entitlements.Repository.{ClassEntitlementRepository}
use festival.Registration.Records.{
  cannot_promote, manual_promotion, customer, transfer, admin, cannot_transfer, same_class,
  transfer_conflict, system_actor, entitlement_not_found, given_reason, TransferRegistrationResult,
  RegistrationActorRole, WaitlistPromotionResult, AppError, Actor, TransferRegistrationInput,
}
use festival.Entitlements.{
  status_eq, ClassEntitlementStatus, confirmed, waitlisted, ClassEntitlement,
}
use festival.Base.{
  not, ◌==◌, inr, or_else, inl, ◌⊎◌, [], length, ltb, some, none, ◌∷◌, Option, Bool, ℕ,
  if◌then◌else◌, true, false,
}

abbrev pub transfer_updates : ℕ → ClassEntitlementStatus → EntitlementUpdates
transfer_updates class_id status = record {
  festival_class_id = some class_id;
  status = some status;
  expected_status = some droppable_statuses;
}

-- The status that the target class has room for.
unfoldable pub transferred_status : ℕ → ℕ → ℕ → ClassEntitlementRepository → ClassEntitlementStatus
transferred_status organization_id class_id target_capacity repo =
    if ltb (length (list_class_entitlements (class_filter organization_id class_id confirmed) repo))
      target_capacity
    then confirmed
    else waitlisted

-- The promotion in the class that is left, where the registration was confirmed.
abbrev pub promote_if :
    Bool
    → ClassEntitlement
    → Actor
    → LogCalls
    → DropTransferService
    → DropTransferService × Option WaitlistPromotionResult
promote_if false e actor_uid calls service = (service, none)
promote_if true e actor_uid calls service =
    promote_top_waitlisted e.organization_id e.festival_class_id actor_uid calls service

-- The class and the organization are those that `transferRegistration` read before.
unfoldable pub transfer_found :
    ClassEntitlement
    → ℕ
    → TransferRegistrationInput
    → ServiceCalls
    → DropTransferService
    → DropTransferService × (AppError ⊎ TransferRegistrationResult)
transfer_found e target_capacity input calls service =
    let target = input.target_festival_class_id in
    let status = transferred_status e.organization_id target target_capacity service.entitlements in
    let (entitlements', found) =
      update_class_entitlement e.organization_id e.id (transfer_updates target status)
        (some droppable_statuses) calls.change.updated_at service.entitlements in
    elim found [
      | none ↦ (service, inl (transfer_conflict e.status))
      | some updated ↦
          let (changes', change_log) =
            create_change_log
              (change_log_input e updated transfer (or_else input.actor_uid system_actor)
                (or_else input.actor_role customer) input.reason)
              calls.change.change_log_id calls.change.logged_at service.changes in
          let (service', promoted) =
            promote_if (status_eq e.status confirmed) e (or_else input.actor_uid system_actor)
              calls.promotion (record { entitlements = entitlements'; changes = changes' }) in
          (
            service',
            inr (record {
              target_festival_class_id = target;
              previous_festival_class_id = e.festival_class_id;
              class_entitlement = updated;
              change_log = change_log;
              promoted_waitlist_entitlements = elim promoted [ none ↦ [] | some p ↦ p ∷ [] ];
            }),
          )
    ]

-- `executeTransfer`: the entitlement is read again under the locks.
unfoldable pub execute_transfer :
    ClassEntitlement
    → ℕ
    → TransferRegistrationInput
    → ServiceCalls
    → DropTransferService
    → DropTransferService × (AppError ⊎ TransferRegistrationResult)
execute_transfer initial target_capacity input calls service =
    elim (get_entitlement initial.id (some initial.organization_id) service.entitlements) [
      | none ↦ (service, inl entitlement_not_found)
      | some e ↦
          if is_droppable e.status
          then transfer_found e target_capacity input calls service
          else (service, inl (cannot_transfer e.status))
    ]

unfoldable pub transfer_registration :
    DropTransferOptions
    → TransferRegistrationInput
    → ServiceCalls
    → DropTransferService
    → DropTransferService × (AppError ⊎ TransferRegistrationResult)
transfer_registration options input calls service =
    elim (get_entitlement input.class_entitlement_id input.organization_id service.entitlements) [
      | none ↦ (service, inl entitlement_not_found)
      | some e ↦
          if e.festival_class_id == input.target_festival_class_id
          then (service, inl same_class)
          else if not (is_droppable e.status)
          then (service, inl (cannot_transfer e.status))
          else elim (assert_target_class_in_festival options.class_query e.organization_id
              (some e.festival_id) input.target_festival_class_id) [
                | inl err ↦ (service, inl err)
                | inr target_capacity ↦ execute_transfer e target_capacity input calls service
              ]
    ]

-- The fields of the call that `promoteRegistration` reads.
pub record PromoteRegistrationInput : Type 0 where
  pub class_entitlement_id : ℕ
  pub organization_id : Option ℕ
  pub actor_uid : Option Actor
  pub actor_role : Option RegistrationActorRole
  pub reason : Option ℕ

unfoldable pub promote_registration :
    PromoteRegistrationInput
    → LogCalls
    → DropTransferService
    → DropTransferService × (AppError ⊎ WaitlistPromotionResult)
promote_registration input calls service =
    elim (get_entitlement input.class_entitlement_id input.organization_id service.entitlements) [
      | none ↦ (service, inl entitlement_not_found)
      | some e ↦
          if not (status_eq e.status waitlisted)
          then (service, inl (cannot_promote e.status))
          else (let (service', result) =
                promote e (some e.festival_id) (or_else input.actor_uid system_actor)
                  (or_else input.actor_role admin)
                  (elim input.reason [ none ↦ manual_promotion | some r ↦ given_reason r ]) calls
                  service in
              (service', inr result))
    ]
