-- ===== src/Registration/Service.antt =====
-- `class DropTransferService` of packages/backend/src/registration/drop-transfer-service.ts over the
-- two repositories in memory. The locks make each call one step: calls that hold different locks and
-- interleave at an `await` are not modelled. A step takes the identifiers and the times of its calls.
-- The order of identifiers as texts is that of the naturals that stand for them.
use festival.Registration.Changes.{
  create_change_log, CreateRegistrationChangeLogInput, RegistrationChangeRepository,
}
use festival.Entitlements.Updates.{
  class_filter, update_class_entitlement_status, list_class_entitlements,
}
use festival.Registration.Capacity.{ClassCapacityResolver}
use festival.Entitlements.Repository.{get_class_entitlement, ClassEntitlementRepository}
use festival.Registration.Records.{
  top_candidate_promoted, waitlist_promote, system, ChangeReason, RegistrationActorRole,
  WaitlistPromotionResult, RegistrationState, Actor,
}
use festival.Registration.Refunds.{RefundCalls, RefundProvider}
use festival.Entitlements.{
  ClassEntitlement, ClassEntitlementStatus, cancelled, confirmed, revoked, waitlisted,
}
use festival.Base.{
  [], leb, ◌&&◌, nat_eq, ◌==◌, ◌∷◌, ◌||◌, none, some, ltb, lookup, sort, List, Option, Bool, ℕ,
  true, false,
}

-- The service's fields that do not change: the provider, the class query, and the text `"USD"`.
pub record DropTransferOptions : Type 0 where
  pub provider : RefundProvider
  pub class_query : Option ClassCapacityResolver
  pub usd : ℕ

pub record DropTransferService : Type 0 where
  pub entitlements : ClassEntitlementRepository
  pub changes : RegistrationChangeRepository

-- The time of an update, and the identifier and time of the change log that follows it.
pub record LogCalls : Type 0 where
  pub updated_at : ℕ
  pub change_log_id : ℕ
  pub logged_at : ℕ

pub record ServiceCalls : Type 0 where
  pub change : LogCalls
  pub promotion : LogCalls
  pub refund : RefundCalls

-- Without an organization the map of the repository in memory is read directly.
unfoldable pub get_entitlement : ℕ → Option ℕ → ClassEntitlementRepository → Option ClassEntitlement
get_entitlement id none repo = lookup id repo.entitlements
get_entitlement id (some organization_id) repo = get_class_entitlement organization_id id repo

abbrev pub state_of : ClassEntitlement → RegistrationState
state_of e = record {
  status = e.status;
  festival_class_id = e.festival_class_id;
  festival_id = some e.festival_id;
  updated_at = e.updated_at;
}

unfoldable pub is_droppable : ClassEntitlementStatus → Bool
is_droppable confirmed = true
is_droppable waitlisted = true
is_droppable cancelled = false
is_droppable revoked = false

-- The earlier created first, and among those of one time the smaller identifier.
unfoldable pub promotes_before : ClassEntitlement → ClassEntitlement → Bool
promotes_before a b =
    ltb a.created_at b.created_at || (a.created_at == b.created_at && leb a.id b.id)

-- The waitlisted entitlements of a class, in the order of promotion.
unfoldable pub promotion_queue : ℕ → ℕ → ClassEntitlementRepository → List ClassEntitlement
promotion_queue organization_id class_id repo =
    sort promotes_before
      (list_class_entitlements (class_filter organization_id class_id waitlisted) repo)

unfoldable pub promotion_log_input :
    ClassEntitlement
    → Option ℕ
    → Actor
    → RegistrationActorRole
    → ChangeReason
    → ℕ
    → CreateRegistrationChangeLogInput
promotion_log_input e festival_id actor_uid actor_role reason updated_at = record {
  organization_id = e.organization_id;
  festival_id = some e.festival_id;
  class_entitlement_id = e.id;
  action = waitlist_promote;
  actor_uid = actor_uid;
  actor_role = actor_role;
  previous_state = record {
    status = waitlisted;
    festival_class_id = e.festival_class_id;
    festival_id = festival_id;
    updated_at = e.updated_at;
  };
  new_state = record {
    status = confirmed;
    festival_class_id = e.festival_class_id;
    festival_id = festival_id;
    updated_at = updated_at;
  };
  reason = some reason;
}

-- The update of a promoted entitlement to confirmed, with its log; `festival_id` is what the log's
-- states hold of the festival. The time of the update is the
-- one that the log reads.
unfoldable pub promote :
    ClassEntitlement
    → Option ℕ
    → Actor
    → RegistrationActorRole
    → ChangeReason
    → LogCalls
    → DropTransferService
    → DropTransferService × WaitlistPromotionResult
promote e festival_id actor_uid actor_role reason calls service =
    let (entitlements', updated) =
      update_class_entitlement_status e.organization_id e.id confirmed none calls.updated_at
        service.entitlements in
    let (changes', change_log) =
      create_change_log
        (promotion_log_input e festival_id actor_uid actor_role reason calls.updated_at)
        calls.change_log_id calls.logged_at service.changes in
    (
      record { entitlements = entitlements'; changes = changes' },
      record {
        class_entitlement_id = e.id;
        festival_class_id = e.festival_class_id;
        previous_status = waitlisted;
        new_status = confirmed;
        change_log = change_log;
      },
    )

-- `waitlisted[0]` is promoted; `none` is the result with `promoted: false`.
abbrev pub promote_first :
    List ClassEntitlement
    → Actor
    → LogCalls
    → DropTransferService
    → DropTransferService × Option WaitlistPromotionResult
promote_first [] actor_uid calls service = (service, none)
promote_first (top ∷ _) actor_uid calls service =
    let (service', result) =
      promote top none actor_uid system top_candidate_promoted calls service in
    (service', some result)

unfoldable pub promote_top_waitlisted :
    ℕ
    → ℕ
    → Actor
    → LogCalls
    → DropTransferService
    → DropTransferService × Option WaitlistPromotionResult
promote_top_waitlisted organization_id class_id actor_uid calls service =
    promote_first (promotion_queue organization_id class_id service.entitlements) actor_uid calls
      service
