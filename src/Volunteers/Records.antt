-- ===== src/Volunteers/Records.antt =====
-- The records of packages/backend/src/volunteers/volunteer-repository.ts. Identifiers, texts and
-- dates are naturals: they are compared, and a date `YYYY-MM-DD` is ordered as its text is.
use festival.Base.{false, true, ℕ, Option, Bool, Dict, List}

pub data ShiftPeriod : Type 0 where
  am pm : ShiftPeriod

abbrev pub period_eq : ShiftPeriod → ShiftPeriod → Bool
period_eq am am = true
period_eq pm pm = true
period_eq _ _ = false

pub data VolunteerAssignmentStatus : Type 0 where
  active cancelled : VolunteerAssignmentStatus

abbrev pub is_active : VolunteerAssignmentStatus → Bool
is_active active = true
is_active cancelled = false

pub record VolunteerRecord : Type 0 where
  pub id : ℕ
  pub organization_id : ℕ
  pub festival_id : ℕ
  pub firebase_uid : ℕ
  pub account_email : ℕ
  pub name : ℕ
  pub phone : ℕ
  pub created_at : ℕ

pub record VolunteerRoleRecord : Type 0 where
  pub id : ℕ
  pub organization_id : ℕ
  pub festival_id : ℕ
  pub slug : ℕ
  pub display_name : ℕ
  pub description : ℕ
  pub details_url : Option ℕ
  pub is_room_proctor : Bool
  pub created_at : ℕ

pub record VolunteerShiftRecord : Type 0 where
  pub id : ℕ
  pub organization_id : ℕ
  pub festival_id : ℕ
  pub role_id : ℕ
  pub date : ℕ
  pub period : ShiftPeriod
  pub time_text : Option ℕ
  pub division : Option ℕ
  pub adjudicator : Option ℕ
  pub created_at : ℕ

pub record VolunteerAssignmentRecord : Type 0 where
  pub id : ℕ
  pub organization_id : ℕ
  pub shift_id : ℕ
  pub volunteer_id : ℕ
  pub status : VolunteerAssignmentStatus
  pub created_at : ℕ
  pub cancelled_at : Option ℕ

pub data BookShiftsOutcome : Type 0 where
  booked : List VolunteerAssignmentRecord → BookShiftsOutcome
  conflict : List ℕ → BookShiftsOutcome

pub record UpsertVolunteerInput : Type 0 where
  pub organization_id : ℕ
  pub festival_id : ℕ
  pub firebase_uid : ℕ
  pub account_email : ℕ
  pub name : ℕ
  pub phone : ℕ

pub record CreateRoleInput : Type 0 where
  pub organization_id : ℕ
  pub festival_id : ℕ
  pub slug : ℕ
  pub display_name : ℕ
  pub description : ℕ
  pub details_url : Option ℕ
  pub is_room_proctor : Bool

pub record UpdateRoleInput : Type 0 where
  pub organization_id : ℕ
  pub festival_id : ℕ
  pub role_id : ℕ
  pub display_name : ℕ
  pub description : ℕ
  pub details_url : Option ℕ
  pub is_room_proctor : Bool

pub record CreateShiftInput : Type 0 where
  pub organization_id : ℕ
  pub festival_id : ℕ
  pub role_id : ℕ
  pub date : ℕ
  pub period : ShiftPeriod
  pub time_text : Option ℕ
  pub division : Option ℕ
  pub adjudicator : Option ℕ

pub record UpdateShiftInput : Type 0 where
  pub organization_id : ℕ
  pub festival_id : ℕ
  pub role_id : ℕ
  pub shift_id : ℕ
  pub date : ℕ
  pub period : ShiftPeriod
  pub time_text : Option ℕ
  pub division : Option ℕ
  pub adjudicator : Option ℕ

pub record BookShiftsInput : Type 0 where
  pub organization_id : ℕ
  pub festival_id : ℕ
  pub volunteer_id : ℕ
  pub shift_ids : List ℕ

pub record CancelAssignmentInput : Type 0 where
  pub organization_id : ℕ
  pub festival_id : ℕ
  pub assignment_id : ℕ
  pub cancelled_at : ℕ

pub record VolunteerRepository : Type 0 where
  pub volunteers : Dict ℕ VolunteerRecord
  pub roles : Dict ℕ VolunteerRoleRecord
  pub shifts : Dict ℕ VolunteerShiftRecord
  pub assignments : Dict ℕ VolunteerAssignmentRecord

-- `a.period.localeCompare(b.period) <= 0`
abbrev pub period_leb : ShiftPeriod → ShiftPeriod → Bool
period_leb pm am = false
period_leb _ _ = true
