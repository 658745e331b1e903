-- ===== src/Volunteers/Listing.antt =====
-- The two listings of `class InMemoryVolunteerRepository` of
-- packages/backend/src/volunteers/volunteer-repository.ts, which throw where a shift has no role.
use festival.Volunteers.Records.{
  period_leb, VolunteerRecord, VolunteerRoleRecord, VolunteerAssignmentRecord, VolunteerRepository,
  VolunteerShiftRecord, is_active,
}
use festival.Base.{
  sort, insert, filter, ◌&&◌, nat_eq, [], ◌==◌, none, inl, lookup, ◌||◌, inr, ◌∷◌, map, values, ltb,
  some, List, Option, Bool, Dict, ◌⊎◌, ℕ, if◌then◌else◌,
}

pub record VolunteerEntry : Type 0 where
  pub assignment : VolunteerAssignmentRecord
  pub shift : VolunteerShiftRecord
  pub role : VolunteerRoleRecord

-- An entry for an assignment, nothing for a shift that is not of the festival, or the error that the
-- role of the shift is missing.
pub data EntryOutcome : Type 0 where
  entry : VolunteerEntry → EntryOutcome
  no_entry : EntryOutcome
  missing_role : ℕ → EntryOutcome

abbrev pub entry_with :
    VolunteerAssignmentRecord → VolunteerShiftRecord → Option VolunteerRoleRecord → EntryOutcome
entry_with a shift none = missing_role shift.role_id
entry_with a shift (some role) = entry (record { assignment = a; shift = shift; role = role })

abbrev pub entry_on :
    ℕ
    → ℕ
    → VolunteerRepository
    → VolunteerAssignmentRecord
    → Option VolunteerShiftRecord
    → EntryOutcome
entry_on organization_id festival_id repo a none = no_entry
entry_on organization_id festival_id repo a (some shift) =
    if shift.organization_id == organization_id && shift.festival_id == festival_id
    then entry_with a shift (lookup shift.role_id repo.roles)
    else no_entry

-- The entries, or the role that is missing for the first assignment without one.
abbrev pub collect : List EntryOutcome → ℕ ⊎ List VolunteerEntry
collect [] = inr []
collect (no_entry ∷ outcomes) = collect outcomes
collect (missing_role role_id ∷ outcomes) = inl role_id
collect (entry e ∷ outcomes) = elim (collect outcomes) [
  | inl role_id ↦ inl role_id
  | inr entries ↦ inr (e ∷ entries)
]

-- By date, and AM before PM.
unfoldable pub entry_before : VolunteerEntry → VolunteerEntry → Bool
entry_before a b =
    ltb a.shift.date b.shift.date
    || (a.shift.date == b.shift.date && period_leb a.shift.period b.shift.period)

unfoldable pub list_assignments_for_volunteer :
    ℕ → ℕ → ℕ → VolunteerRepository → ℕ ⊎ List VolunteerEntry
list_assignments_for_volunteer organization_id festival_id volunteer_id repo =
    let found = collect (
      map (λ a. entry_on organization_id festival_id repo a (lookup a.shift_id repo.shifts))
        (filter
          (λ a.
            a.organization_id == organization_id
            && a.volunteer_id == volunteer_id
            && is_active a.status)
          (values repo.assignments))) in
    elim found [ inl role_id ↦ inl role_id | inr entries ↦ inr (sort entry_before entries) ]

-- The active assignments of an organization by shift: a later one replaces an earlier one.
unfoldable pub active_by_shift_id :
    ℕ
    → List VolunteerAssignmentRecord
    → Dict ℕ VolunteerAssignmentRecord
    → Dict ℕ VolunteerAssignmentRecord
active_by_shift_id organization_id [] m = m
active_by_shift_id organization_id (a ∷ rest) m = active_by_shift_id organization_id rest (
    if a.organization_id == organization_id && is_active a.status then insert a.shift_id a m else m)

pub record ScheduleEntry : Type 0 where
  pub shift : VolunteerShiftRecord
  pub role : VolunteerRoleRecord
  pub assignment : Option VolunteerAssignmentRecord
  pub volunteer : Option VolunteerRecord

abbrev pub volunteer_of :
    Option VolunteerAssignmentRecord → VolunteerRepository → Option VolunteerRecord
volunteer_of none repo = none
volunteer_of (some a) repo = lookup a.volunteer_id repo.volunteers

-- The schedule of the shifts, or the role that is missing for the first one without it.
unfoldable pub schedule :
    Dict ℕ VolunteerAssignmentRecord
    → VolunteerRepository
    → List VolunteerShiftRecord
    → ℕ ⊎ List ScheduleEntry
schedule active_by_shift repo [] = inr []
schedule active_by_shift repo (shift ∷ shifts) =
    let rest = schedule active_by_shift repo shifts in
    let assignment = lookup shift.id active_by_shift in
    elim (lookup shift.role_id repo.roles) [
      | none ↦ inl shift.role_id
      | some role ↦ elim rest [
        | inl role_id ↦ inl role_id
        | inr entries ↦ inr (
            record {
              shift = shift;
              role = role;
              assignment = assignment;
              volunteer = volunteer_of assignment repo;
            }
            ∷ entries)
      ]
    ]

unfoldable pub list_schedule_for_organization : ℕ → ℕ → VolunteerRepository → ℕ ⊎ List ScheduleEntry
list_schedule_for_organization organization_id festival_id repo =
    schedule (active_by_shift_id organization_id (values repo.assignments) []) repo (
      filter (λ shift. shift.organization_id == organization_id && shift.festival_id == festival_id)
        (values repo.shifts))
