-- ===== src/Registration/Operations.antt =====
-- `dropRegistration` of packages/backend/src/registration/drop-transfer-service.ts, with all its
-- checks and writes.
use festival.Registration.Changes.{
  RegistrationChangeRepository, create_change_log, CreateRegistrationChangeLogInput,
}
use festival.Registration.Refunds.{
  process_drop_refund, resolve_requested_refund_amount_cents, RefundCalls,
}
use festival.Entitlements.Updates.{update_class_entitlement, EntitlementUpdates}
use festival.Registration.Service.{
  is_droppable, state_of, get_entitlement, promote_top_waitlisted, ServiceCalls,
  DropTransferService, DropTransferOptions,
}
use festival.Entitlements.Repository.{ClassEntitlementRepository}
use festival.Registration.Records.{
  customer, cannot_drop, drop, already_cancelled, system_actor, entitlement_not_found, given_reason,
  DropRegistrationResult, RefundEvent, RegistrationActorRole, AppError, RegistrationChangeLog,
  RequestedAmount, Actor, DropRegistrationInput, RegistrationChangeAction,
}
use festival.Entitlements.{
  status_eq, ClassEntitlementStatus, cancelled, confirmed, waitlisted, ClassEntitlement,
}
use festival.Base.{
  not, inr, or_else, inl, ◌⊎◌, [], some, none, ◌||◌, ◌∷◌, List, Option, Bool, ℕ, if◌then◌else◌,
  true, false,
}

-- What is written when an entitlement's change is logged.
unfoldable pub change_log_input :
    ClassEntitlement
    → ClassEntitlement
    → RegistrationChangeAction
    → Actor
    → RegistrationActorRole
    → Option ℕ
    → CreateRegistrationChangeLogInput
change_log_input before updated action actor_uid actor_role reason = record {
  organization_id = before.organization_id;
  festival_id = some before.festival_id;
  class_entitlement_id = before.id;
  action = action;
  actor_uid = actor_uid;
  actor_role = actor_role;
  previous_state = state_of before;
  new_state = state_of updated;
  reason = elim reason [ none ↦ none | some r ↦ some (given_reason r) ];
}

-- The check of the amount that a drop makes before it writes anything.
abbrev pub check_refund : Bool → ClassEntitlement → RequestedAmount → Option AppError
check_refund false _ _ = none
check_refund true e asked = elim (resolve_requested_refund_amount_cents e asked) [
  | inl err ↦ some err
  | inr _ ↦ none
]

abbrev pub requests_refund : DropRegistrationInput → Bool
requests_refund input = input.request_refund || input.issue_refund

-- The refund of a drop, where it asks for one.
abbrev pub refund_if :
    Bool
    → DropTransferOptions
    → ClassEntitlement
    → ℕ
    → DropRegistrationInput
    → RefundCalls
    → DropTransferService
    → DropTransferService × (AppError ⊎ Option RefundEvent)
refund_if false options e change_log_id input calls service = (service, inr none)
refund_if true options e change_log_id input calls service =
    let (changes', result) =
      process_drop_refund options.usd options.provider e change_log_id input calls
        service.changes in
    (
      record { entitlements = service.entitlements; changes = changes' },
      elim result [ inl err ↦ inl err | inr event ↦ inr (some event) ],
    )

-- After a confirmed registration is dropped: the promotion, then the refund.
unfoldable pub after_confirmed_drop :
    DropTransferOptions
    → ClassEntitlement
    → ClassEntitlement
    → RegistrationChangeLog
    → DropRegistrationInput
    → ServiceCalls
    → DropTransferService
    → DropTransferService × (AppError ⊎ DropRegistrationResult)
after_confirmed_drop options e updated change_log input calls service =
    let (service', promoted) =
      promote_top_waitlisted e.organization_id e.festival_class_id
        (or_else input.actor_uid system_actor) calls.promotion service in
    let (service'', refund) =
      refund_if (requests_refund input) options e change_log.id input calls.refund service' in
    (
      service'',
      elim refund [
        | inl err ↦ inl err
        | inr event ↦ inr (record {
          class_entitlement = updated;
          change_log = change_log;
          refund_event = event;
          promoted_waitlist_entitlements = elim promoted [ none ↦ [] | some p ↦ p ∷ [] ];
        })
      ],
    )

abbrev pub droppable_statuses : List ClassEntitlementStatus
droppable_statuses = confirmed ∷ waitlisted ∷ []

abbrev pub drop_updates : EntitlementUpdates
drop_updates = record {
  festival_class_id = none;
  status = some cancelled;
  expected_status = some droppable_statuses;
}

-- What a drop does after the entitlement is updated to cancelled: the log, and what follows for
-- the status before.
unfoldable pub drop_updated :
    DropTransferOptions
    → ClassEntitlement
    → ClassEntitlement
    → ClassEntitlementRepository
    → DropRegistrationInput
    → ServiceCalls
    → RegistrationChangeRepository
    → DropTransferService × (AppError ⊎ DropRegistrationResult)
drop_updated options e updated entitlements' input calls changes =
    let (changes', change_log) =
      create_change_log
        (change_log_input e updated drop (or_else input.actor_uid system_actor)
          (or_else input.actor_role customer) input.reason)
        calls.change.change_log_id calls.change.logged_at changes in
    let service' : DropTransferService = record {
      entitlements = entitlements';
      changes = changes';
    } in
    if status_eq e.status waitlisted
    then (
      service',
      inr (record {
        class_entitlement = updated;
        change_log = change_log;
        refund_event = none;
        promoted_waitlist_entitlements = [];
      }),
    )
    else after_confirmed_drop options e updated change_log input calls service'

unfoldable pub drop_found :
    DropTransferOptions
    → ClassEntitlement
    → DropRegistrationInput
    → ServiceCalls
    → DropTransferService
    → DropTransferService × (AppError ⊎ DropRegistrationResult)
drop_found options e input calls service =
    let (entitlements', found) =
      update_class_entitlement e.organization_id e.id drop_updates (some droppable_statuses)
        calls.change.updated_at service.entitlements in
    elim found [
      | none ↦ (service, inl already_cancelled)
      | some updated ↦ drop_updated options e updated entitlements' input calls service.changes
    ]

unfoldable pub drop_registration :
    DropTransferOptions
    → DropRegistrationInput
    → ServiceCalls
    → DropTransferService
    → DropTransferService × (AppError ⊎ DropRegistrationResult)
drop_registration options input calls service =
    elim (get_entitlement input.class_entitlement_id input.organization_id service.entitlements) [
      | none ↦ (service, inl entitlement_not_found)
      | some e ↦
          if status_eq e.status cancelled
          then (service, inl already_cancelled)
          else if not (is_droppable e.status)
          then (service, inl (cannot_drop e.status))
          else elim (check_refund (requests_refund input) e input.refund_amount_cents) [
            | some err ↦ (service, inl err)
            | none ↦ drop_found options e input calls service
          ]
    ]
