-- ===== src/Registration/Changes.antt =====
-- `class InMemoryRegistrationChangeRepository` of
-- packages/backend/src/registration/registration-change-repository.ts. The identifier of
-- `randomUUID` and the time of the call are arguments. The tests that the action, the role and the
-- status are among the listed ones hold of every value of their types.
use festival.Entitlements.Updates.{matches_id}
use festival.Registration.Records.{
  ChangeReason, RegistrationState, RegistrationActorRole, Actor, FailureReason, RefundEventStatus,
  RegistrationChangeAction, RegistrationChangeLog, RefundEvent,
}
use festival.Base.{
  values, leb, ◌&&◌, ◌==◌, filter, nat_eq, sort, ◌||◌, some, List, ltb, lookup, insert, Dict,
  Option, or_else, Bool, none, ℕ, if◌then◌else◌,
}

pub record RegistrationChangeRepository : Type 0 where
  pub change_logs : Dict ℕ RegistrationChangeLog
  pub refund_events : Dict ℕ RefundEvent

pub record CreateRegistrationChangeLogInput : Type 0 where
  pub organization_id : ℕ
  pub festival_id : Option ℕ
  pub class_entitlement_id : ℕ
  pub action : RegistrationChangeAction
  pub actor_uid : Actor
  pub actor_role : RegistrationActorRole
  pub previous_state : RegistrationState
  pub new_state : RegistrationState
  pub reason : Option ChangeReason

unfoldable pub new_change_log : CreateRegistrationChangeLogInput → ℕ → ℕ → RegistrationChangeLog
new_change_log input uuid now = record {
  id = uuid;
  organization_id = input.organization_id;
  festival_id = input.festival_id;
  class_entitlement_id = input.class_entitlement_id;
  action = input.action;
  actor_uid = input.actor_uid;
  actor_role = input.actor_role;
  previous_state = input.previous_state;
  new_state = input.new_state;
  reason = input.reason;
  created_at = now;
}

unfoldable pub create_change_log :
    CreateRegistrationChangeLogInput
    → ℕ
    → ℕ
    → RegistrationChangeRepository
    → RegistrationChangeRepository × RegistrationChangeLog
unfolding new_change_log
create_change_log input uuid now repo = (
  record repo { change_logs = insert uuid (new_change_log input uuid now) repo.change_logs },
  new_change_log input uuid now,
)

-- The latest first, and among those of one time the greater identifier.
unfoldable pub change_log_before : RegistrationChangeLog → RegistrationChangeLog → Bool
change_log_before a b =
    ltb b.created_at a.created_at || (b.created_at == a.created_at && leb b.id a.id)

unfoldable pub list_change_logs_for_entitlement :
    Option ℕ → ℕ → RegistrationChangeRepository → List RegistrationChangeLog
list_change_logs_for_entitlement organization_id class_entitlement_id repo =
    sort change_log_before (
      filter
        (λ log.
          log.class_entitlement_id == class_entitlement_id
          && matches_id organization_id log.organization_id)
        (values repo.change_logs))

pub record CreateRefundEventInput : Type 0 where
  pub organization_id : ℕ
  pub registration_change_log_id : Option ℕ
  pub class_entitlement_id : Option ℕ
  pub shopify_order_id : Option ℕ
  pub shopify_order_line_id : Option ℕ
  pub amount_cents : ℕ
  pub currency : ℕ
  pub status : RefundEventStatus
  pub failure_reason : Option FailureReason

unfoldable pub new_refund_event : CreateRefundEventInput → ℕ → ℕ → RefundEvent
new_refund_event input uuid now = record {
  id = uuid;
  organization_id = input.organization_id;
  registration_change_log_id = input.registration_change_log_id;
  class_entitlement_id = input.class_entitlement_id;
  shopify_order_id = input.shopify_order_id;
  shopify_order_line_id = input.shopify_order_line_id;
  shopify_refund_id = none;
  amount_cents = input.amount_cents;
  currency = input.currency;
  status = input.status;
  failure_reason = input.failure_reason;
  created_at = now;
  updated_at = now;
}

unfoldable pub create_refund_event :
    CreateRefundEventInput
    → ℕ
    → ℕ
    → RegistrationChangeRepository
    → RegistrationChangeRepository × RefundEvent
unfolding new_refund_event
create_refund_event input uuid now repo = (
  record repo { refund_events = insert uuid (new_refund_event input uuid now) repo.refund_events },
  new_refund_event input uuid now,
)

-- The event, where the organization that is asked for is its own.
abbrev pub of_asked_organization : Option ℕ → Option RefundEvent → Option RefundEvent
of_asked_organization organization_id none = none
of_asked_organization organization_id (some e) =
    if matches_id organization_id e.organization_id then some e else none

unfoldable pub get_refund_event : Option ℕ → ℕ → RegistrationChangeRepository → Option RefundEvent
get_refund_event organization_id id repo =
    of_asked_organization organization_id (lookup id repo.refund_events)

-- A refund id or a failure reason of `undefined` is `none`, and leaves the field as it is.
pub record UpdateRefundEventStatusInput : Type 0 where
  pub id : ℕ
  pub organization_id : Option ℕ
  pub status : RefundEventStatus
  pub shopify_refund_id : Option (Option ℕ)
  pub failure_reason : Option (Option FailureReason)

abbrev pub apply_refund_update : UpdateRefundEventStatusInput → ℕ → RefundEvent → RefundEvent
apply_refund_update input now e = record e {
  status = input.status;
  shopify_refund_id = or_else input.shopify_refund_id e.shopify_refund_id;
  failure_reason = or_else input.failure_reason e.failure_reason;
  updated_at = now;
}

unfoldable pub update_refund_event_status :
    UpdateRefundEventStatusInput
    → ℕ
    → RegistrationChangeRepository
    → RegistrationChangeRepository × Option RefundEvent
unfolding get_refund_event
update_refund_event_status input now repo =
    elim (get_refund_event input.organization_id input.id repo) [
      | none ↦ (repo, none)
      | some e ↦ (
        record repo {
          refund_events = insert input.id (apply_refund_update input now e) repo.refund_events;
        },
        some (apply_refund_update input now e),
      )
    ]
