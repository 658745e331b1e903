-- ===== src/Registration/Records.antt =====
-- The records of a registration's changes, of packages/common/src/registration.ts, and the errors
-- of packages/backend/src/registration/drop-transfer-service.ts. Texts are naturals where they are
-- only stored or compared, and constructors where the code writes them.
use festival.Entitlements.{ClassEntitlement, ClassEntitlementStatus}
use festival.Base.{Bool, List, ℕ, Option}

pub data RegistrationChangeAction : Type 0 where
  drop transfer waitlist_promote revert : RegistrationChangeAction

pub data RegistrationActorRole : Type 0 where
  customer admin system : RegistrationActorRole

-- `"system"`, or the actor that the caller names.
pub data Actor : Type 0 where
  system_actor : Actor
  actor : ℕ → Actor

-- The reason of a change, given by the caller or written by the code.
pub data ChangeReason : Type 0 where
  given_reason : ℕ → ChangeReason
  top_candidate_promoted manual_promotion : ChangeReason

-- The keys that the code writes into `previousState` and `newState`.
pub record RegistrationState : Type 0 where
  pub status : ClassEntitlementStatus
  pub festival_class_id : ℕ
  pub festival_id : Option ℕ
  pub updated_at : ℕ

pub record RegistrationChangeLog : Type 0 where
  pub id : ℕ
  pub organization_id : ℕ
  pub festival_id : Option ℕ
  pub class_entitlement_id : ℕ
  pub action : RegistrationChangeAction
  pub actor_uid : Actor
  pub actor_role : RegistrationActorRole
  pub previous_state : RegistrationState
  pub new_state : RegistrationState
  pub reason : Option ChangeReason
  pub created_at : ℕ

pub data RefundEventStatus : Type 0 where
  pending completed failed : RefundEventStatus

pub data FailureReason : Type 0 where
  zero_amount missing_order_id missing_order_line_id : FailureReason
  partial_refund_unsupported no_line_targeted_provider : FailureReason
  no_refund_id different_order not_one_allocation allocation_mismatch : FailureReason
  -- the message of what the provider throws
  provider_failure : ℕ → FailureReason

pub record RefundEvent : Type 0 where
  pub id : ℕ
  pub organization_id : ℕ
  pub registration_change_log_id : Option ℕ
  pub class_entitlement_id : Option ℕ
  pub shopify_order_id : Option ℕ
  pub shopify_order_line_id : Option ℕ
  pub shopify_refund_id : Option ℕ
  pub amount_cents : ℕ
  pub currency : ℕ
  pub status : RefundEventStatus
  pub failure_reason : Option FailureReason
  pub created_at : ℕ
  pub updated_at : ℕ

-- A refund amount of `undefined` or `null` is `none`; `cents` is a safe integer from 0 on.
pub data RequestedAmount : Type 0 where
  no_amount invalid_amount : RequestedAmount
  cents : ℕ → RequestedAmount

pub record DropRegistrationInput : Type 0 where
  pub class_entitlement_id : ℕ
  pub organization_id : Option ℕ
  pub actor_uid : Option Actor
  pub actor_role : Option RegistrationActorRole
  pub reason : Option ℕ
  pub request_refund : Bool
  pub issue_refund : Bool
  pub refund_amount_cents : RequestedAmount
  pub refund_reason : Option ℕ

pub record TransferRegistrationInput : Type 0 where
  pub class_entitlement_id : ℕ
  pub target_festival_class_id : ℕ
  pub organization_id : Option ℕ
  pub actor_uid : Option Actor
  pub actor_role : Option RegistrationActorRole
  pub reason : Option ℕ

-- `promoted` is the presence of the change log; the message is the identifier in words.
pub record WaitlistPromotionResult : Type 0 where
  pub class_entitlement_id : ℕ
  pub festival_class_id : ℕ
  pub previous_status : ClassEntitlementStatus
  pub new_status : ClassEntitlementStatus
  pub change_log : RegistrationChangeLog

pub record DropRegistrationResult : Type 0 where
  pub class_entitlement : ClassEntitlement
  pub change_log : RegistrationChangeLog
  pub refund_event : Option RefundEvent
  pub promoted_waitlist_entitlements : List WaitlistPromotionResult

pub record TransferRegistrationResult : Type 0 where
  pub target_festival_class_id : ℕ
  pub previous_festival_class_id : ℕ
  pub class_entitlement : ClassEntitlement
  pub change_log : RegistrationChangeLog
  pub promoted_waitlist_entitlements : List WaitlistPromotionResult

-- The `AppError`s that the service throws, each with its message and HTTP status.
pub data AppError : Type 0 where
  -- 404
  entitlement_not_found : AppError
  -- 409, and 400
  already_cancelled : AppError
  cannot_drop : ClassEntitlementStatus → AppError
  -- 400, and 409 where the update finds another status
  cannot_transfer transfer_conflict : ClassEntitlementStatus → AppError
  -- 400
  cannot_promote : ClassEntitlementStatus → AppError
  refund_not_positive refund_exceeds_paid : AppError
  same_class class_not_in_festival : AppError
  -- no `AppError`, but what a call of the class query throws
  query_threw : AppError
