-- ===== src/Volunteers/Invariant.antt =====
-- What the operations on volunteers, roles and shifts keep of the repository of
-- packages/backend/src/volunteers/volunteer-repository.ts.
use festival.Volunteers.Booking.{is_active_on}
use festival.Volunteers.Repository.{
  new_shift, role_details, shift_details, find_volunteer_by_uid, update_role, create_shift,
  shift_of, update_shift, upsert_volunteer, get_role, create_role,
}
use festival.Volunteers.Records.{
  UpsertVolunteerInput, CreateRoleInput, VolunteerAssignmentRecord, VolunteerRoleRecord,
  UpdateRoleInput, UpdateShiftInput, VolunteerShiftRecord, CreateShiftInput, VolunteerRepository,
}
use festival.Base.{
  lookup-All, refl, ◌≤◌, inr, lookup-insert_some, insert-All, count, inl, nat_eq, true,
  insert-Keyed, lookup, values, Option-cases, All-map, insert, All, some, is_some, [], arith, Keyed,
  Dict, ℕ, ◌≡◌,
}

abbrev pub HasRole : Dict ℕ VolunteerRoleRecord → VolunteerShiftRecord → Type 0
HasRole roles shift = is_some (lookup shift.role_id roles) ≡ true

abbrev pub HasShift : Dict ℕ VolunteerShiftRecord → VolunteerAssignmentRecord → Type 0
HasShift shifts a = is_some (lookup a.shift_id shifts) ≡ true

-- Shifts and assignments are stored under their identifiers, every shift has its role and every
-- assignment its shift, and a shift has one active assignment at most.
pub record IsSchedule (repo : VolunteerRepository) : Type 0 where
  pub shifts_keyed : Keyed (λ s. s.id) repo.shifts
  pub assignments_keyed : Keyed (λ a. a.id) repo.assignments
  pub shifts_linked : All (HasRole repo.roles) (values repo.shifts)
  pub assignments_linked : All (HasShift repo.shifts) (values repo.assignments)
  pub one_active : (id : ℕ) → count (is_active_on id) (values repo.assignments) ≤ 1

abbrev pub no_volunteers : VolunteerRepository
no_volunteers = record { volunteers = []; roles = []; shifts = []; assignments = [] }

pub no_volunteers-IsSchedule : IsSchedule no_volunteers
no_volunteers-IsSchedule = record {
  shifts_keyed = tt;
  assignments_keyed = tt;
  shifts_linked = tt;
  assignments_linked = tt;
  one_active = λ id. omega arith;
}

pub upsert_volunteer-IsSchedule :
    (input : UpsertVolunteerInput) (uuid now : ℕ) (repo : VolunteerRepository)
    → IsSchedule repo
    → IsSchedule (upsert_volunteer input uuid now repo).0
unfolding upsert_volunteer
upsert_volunteer-IsSchedule input uuid now repo v =
    elim (Option-cases
      (find_volunteer_by_uid input.organization_id input.festival_id input.firebase_uid repo)) [
        | inl n ↦
            rw (upsert_volunteer, n)
              (record {
                shifts_keyed = v.shifts_keyed;
                assignments_keyed = v.assignments_keyed;
                shifts_linked = v.shifts_linked;
                assignments_linked = v.assignments_linked;
                one_active = v.one_active;
              })
        | inr (w, n) ↦
            rw (upsert_volunteer, n)
              (record {
                shifts_keyed = v.shifts_keyed;
                assignments_keyed = v.assignments_keyed;
                shifts_linked = v.shifts_linked;
                assignments_linked = v.assignments_linked;
                one_active = v.one_active;
              })
      ]

-- A role that is written keeps the shifts linked.
write_role-IsSchedule :
    (id : ℕ) (role : VolunteerRoleRecord) (repo : VolunteerRepository)
    → IsSchedule repo
    → IsSchedule (record repo { roles = insert id role repo.roles })
write_role-IsSchedule id role repo v = record {
  shifts_keyed = v.shifts_keyed;
  assignments_keyed = v.assignments_keyed;
  shifts_linked =
      All-map (λ s h. lookup-insert_some s.role_id id role repo.roles h) (values repo.shifts)
        v.shifts_linked;
  assignments_linked = v.assignments_linked;
  one_active = v.one_active;
}

pub create_role-IsSchedule :
    (input : CreateRoleInput) (uuid now : ℕ) (repo : VolunteerRepository)
    → IsSchedule repo
    → IsSchedule (create_role input uuid now repo).0
unfolding create_role
create_role-IsSchedule input uuid now repo v =
    write_role-IsSchedule uuid (create_role input uuid now repo).1 repo v

pub update_role-IsSchedule :
    (input : UpdateRoleInput) (repo : VolunteerRepository)
    → IsSchedule repo
    → IsSchedule (update_role input repo).0
unfolding update_role
update_role-IsSchedule input repo v =
    elim (Option-cases (get_role input.organization_id input.festival_id input.role_id repo)) [
      | inl n ↦ rw (update_role, n) v
      | inr (role, n) ↦
          rw (update_role, n) (write_role-IsSchedule role.id (role_details input role) repo v)
    ]

-- A shift that is written under its identifier, with a role that is there.
write_shift-IsSchedule :
    (shift : VolunteerShiftRecord) (repo : VolunteerRepository)
    → HasRole repo.roles shift
    → IsSchedule repo
    → IsSchedule (record repo { shifts = insert shift.id shift repo.shifts })
write_shift-IsSchedule shift repo r v = record {
  shifts_keyed = insert-Keyed (λ s. s.id) shift.id shift repo.shifts refl v.shifts_keyed;
  assignments_keyed = v.assignments_keyed;
  shifts_linked = insert-All (HasRole repo.roles) shift.id shift repo.shifts r v.shifts_linked;
  assignments_linked =
      All-map (λ a h. lookup-insert_some a.shift_id shift.id shift repo.shifts h)
        (values repo.assignments) v.assignments_linked;
  one_active = v.one_active;
}

get_role-found :
    (organization_id festival_id role_id : ℕ) (repo : VolunteerRepository)
    → (role : VolunteerRoleRecord) → get_role organization_id festival_id role_id repo ≡ some role
    → is_some (lookup role_id repo.roles) ≡ true
unfolding get_role
get_role-found organization_id festival_id role_id repo role h = ground (arith, h)

pub create_shift-IsSchedule :
    (input : CreateShiftInput) (uuid now : ℕ) (repo : VolunteerRepository)
    → IsSchedule repo
    → IsSchedule (create_shift input uuid now repo).0
unfolding create_shift
create_shift-IsSchedule input uuid now repo v =
    elim (Option-cases (get_role input.organization_id input.festival_id input.role_id repo)) [
      | inl n ↦ rw (create_shift, n) v
      | inr (role, n) ↦
          rw (create_shift, n)
            (write_shift-IsSchedule (new_shift input uuid now) repo
              (get_role-found input.organization_id input.festival_id input.role_id repo role n) v)
    ]

shift_of-found :
    (organization_id festival_id role_id id : ℕ) (repo : VolunteerRepository)
    → (shift : VolunteerShiftRecord)
    → shift_of organization_id festival_id role_id (lookup id repo.shifts) ≡ some shift
    → lookup id repo.shifts ≡ some shift
shift_of-found organization_id festival_id role_id id repo shift h = ground (arith, h)

pub update_shift-IsSchedule :
    (input : UpdateShiftInput) (repo : VolunteerRepository)
    → IsSchedule repo
    → IsSchedule (update_shift input repo).0
unfolding update_shift
update_shift-IsSchedule input repo v =
    elim (Option-cases (
      shift_of input.organization_id input.festival_id input.role_id
        (lookup input.shift_id repo.shifts))) [
          | inl n ↦ rw (update_shift, n) v
          | inr (shift, n) ↦
              rw (update_shift, n)
                (write_shift-IsSchedule (shift_details input shift) repo
                  (lookup-All (HasRole repo.roles) input.shift_id shift repo.shifts
                    (shift_of-found input.organization_id input.festival_id input.role_id
                      input.shift_id repo shift n)
                    v.shifts_linked)
                  v)
        ]
