-- ===== src/Waitlist/Records.antt =====
-- The records of a waitlist: packages/common/src/waitlist.ts and
-- packages/backend/src/waitlist/waitlist-repository.ts. Identifiers are only compared, so they are
-- naturals, and a time is its milliseconds.
use festival.Base.{ℕ, Bool, true, false, Option, List}

pub data WaitlistEntryStatus : Type 0 where
  active withdrawn : WaitlistEntryStatus

abbrev pub is_active : WaitlistEntryStatus → Bool
is_active active = true
is_active withdrawn = false

pub data WaitlistEventType : Type 0 where
  joined_event withdrawn_event rejoined_event : WaitlistEventType

pub data ActorType : Type 0 where
  parent admin : ActorType

pub record FestivalClassWaitlistEntry : Type 0 where
  pub id : ℕ
  pub organization_id : ℕ
  pub festival_id : ℕ
  pub festival_class_id : ℕ
  pub parent_customer_id : ℕ
  pub child_id : ℕ
  pub status : WaitlistEntryStatus
  pub joined_at : ℕ
  pub withdrawn_at : Option ℕ
  pub created_at : ℕ
  pub updated_at : ℕ

pub record FestivalClassWaitlistEvent : Type 0 where
  pub id : ℕ
  pub organization_id : ℕ
  pub festival_id : Option ℕ
  pub festival_class_id : ℕ
  pub waitlist_entry_id : ℕ
  pub event_type : WaitlistEventType
  pub actor_type : ActorType
  pub actor_id : ℕ
  pub created_at : ℕ

pub record WaitlistRepository : Type 0 where
  pub entries : List FestivalClassWaitlistEntry
  pub events : List FestivalClassWaitlistEvent

pub record CreateOrReactivateWaitlistEntryParams : Type 0 where
  pub organization_id : ℕ
  pub festival_id : ℕ
  pub festival_class_id : ℕ
  pub parent_customer_id : ℕ
  pub child_id : ℕ

pub data Action : Type 0 where
  no_action joined rejoined : Action

pub record CreateOrReactivateWaitlistEntryResult : Type 0 where
  pub entry : FestivalClassWaitlistEntry
  pub already_joined : Bool
  pub action : Action

pub record WithdrawWaitlistEntryResult : Type 0 where
  pub entry : Option FestivalClassWaitlistEntry
  pub already_withdrawn : Bool
