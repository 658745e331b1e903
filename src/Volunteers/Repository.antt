-- ===== src/Volunteers/Repository.antt =====
-- The volunteers, roles and shifts of `class InMemoryVolunteerRepository` of
-- packages/backend/src/volunteers/volunteer-repository.ts. The identifier of `randomUUID` and the
-- time of the call are arguments.
use festival.Volunteers.Records.{
  VolunteerRoleRecord, VolunteerShiftRecord, UpsertVolunteerInput, CreateShiftInput,
  UpdateRoleInput, CreateRoleInput, UpdateShiftInput, VolunteerRepository, VolunteerRecord,
}
use festival.Base.{
  discard, true, contains, remove, false, none, ◌&&◌, insert, values, nat_eq, filter, ◌==◌, lookup,
  some, find?, map, Option, Bool, List, ℕ, if◌then◌else◌,
}

unfoldable pub is_volunteer : ℕ → ℕ → ℕ → VolunteerRecord → Bool
is_volunteer organization_id festival_id firebase_uid volunteer =
    volunteer.organization_id == organization_id
    && volunteer.festival_id == festival_id
    && volunteer.firebase_uid == firebase_uid

unfoldable pub find_volunteer_by_uid : ℕ → ℕ → ℕ → VolunteerRepository → Option VolunteerRecord
find_volunteer_by_uid organization_id festival_id firebase_uid repo =
    find? (is_volunteer organization_id festival_id firebase_uid) (values repo.volunteers)

abbrev pub contact_details : UpsertVolunteerInput → VolunteerRecord → VolunteerRecord
contact_details input volunteer = record volunteer {
  account_email = input.account_email;
  name = input.name;
  phone = input.phone;
}

abbrev pub new_volunteer : UpsertVolunteerInput → ℕ → ℕ → VolunteerRecord
new_volunteer input uuid now = record {
  id = uuid;
  organization_id = input.organization_id;
  festival_id = input.festival_id;
  firebase_uid = input.firebase_uid;
  account_email = input.account_email;
  name = input.name;
  phone = input.phone;
  created_at = now;
}

-- The fields of the found object are assigned in its place of the map.
unfoldable pub upsert_volunteer :
    UpsertVolunteerInput → ℕ → ℕ → VolunteerRepository → VolunteerRepository × VolunteerRecord
upsert_volunteer input uuid now repo =
    elim (find_volunteer_by_uid input.organization_id input.festival_id input.firebase_uid repo) [
      | some v ↦ (
        record repo { volunteers = insert v.id (contact_details input v) repo.volunteers },
        contact_details input v,
      )
      | none ↦ (
        record repo { volunteers = insert uuid (new_volunteer input uuid now) repo.volunteers },
        new_volunteer input uuid now,
      )
    ]

unfoldable pub create_role :
    CreateRoleInput → ℕ → ℕ → VolunteerRepository → VolunteerRepository × VolunteerRoleRecord
create_role input uuid now repo =
    let role : VolunteerRoleRecord = record {
      id = uuid;
      organization_id = input.organization_id;
      festival_id = input.festival_id;
      slug = input.slug;
      display_name = input.display_name;
      description = input.description;
      details_url = input.details_url;
      is_room_proctor = input.is_room_proctor;
      created_at = now;
    } in
    (record repo { roles = insert uuid role repo.roles }, role)

-- The role of the organization and the festival, where it is theirs.
abbrev pub role_of : ℕ → ℕ → Option VolunteerRoleRecord → Option VolunteerRoleRecord
role_of organization_id festival_id none = none
role_of organization_id festival_id (some role) =
    if role.organization_id == organization_id && role.festival_id == festival_id
    then some role
    else none

unfoldable pub get_role : ℕ → ℕ → ℕ → VolunteerRepository → Option VolunteerRoleRecord
get_role organization_id festival_id role_id repo =
    role_of organization_id festival_id (lookup role_id repo.roles)

abbrev pub role_details : UpdateRoleInput → VolunteerRoleRecord → VolunteerRoleRecord
role_details input role = record role {
  display_name = input.display_name;
  description = input.description;
  details_url = input.details_url;
  is_room_proctor = input.is_room_proctor;
}

unfoldable pub update_role :
    UpdateRoleInput → VolunteerRepository → VolunteerRepository × Option VolunteerRoleRecord
unfolding get_role
update_role input repo =
    elim (get_role input.organization_id input.festival_id input.role_id repo) [
      | none ↦ (repo, none)
      | some role ↦ (
        record repo { roles = insert role.id (role_details input role) repo.roles },
        some (role_details input role),
      )
    ]

-- The identifiers of the shifts of a role.
unfoldable pub shift_ids_for_role : ℕ → VolunteerRepository → List ℕ
shift_ids_for_role role_id repo =
    map (λ shift. shift.id) (filter (λ shift. shift.role_id == role_id) (values repo.shifts))

-- A role, its shifts and their assignments.
unfoldable pub delete_role : ℕ → ℕ → ℕ → VolunteerRepository → VolunteerRepository × Bool
delete_role organization_id festival_id role_id repo =
    elim (get_role organization_id festival_id role_id repo) [
      | none ↦ (repo, false)
      | some role ↦ (
        record repo {
          roles = remove role_id repo.roles;
          shifts = discard (λ shift. shift.role_id == role_id) repo.shifts;
          assignments =
              discard (λ a. contains a.shift_id (shift_ids_for_role role_id repo)) repo.assignments;
        },
        true,
      )
    ]

unfoldable pub list_roles : ℕ → ℕ → VolunteerRepository → List VolunteerRoleRecord
list_roles organization_id festival_id repo =
    filter (λ role. role.organization_id == organization_id && role.festival_id == festival_id)
      (values repo.roles)

abbrev pub new_shift : CreateShiftInput → ℕ → ℕ → VolunteerShiftRecord
new_shift input uuid now = record {
  id = uuid;
  organization_id = input.organization_id;
  festival_id = input.festival_id;
  role_id = input.role_id;
  date = input.date;
  period = input.period;
  time_text = input.time_text;
  division = input.division;
  adjudicator = input.adjudicator;
  created_at = now;
}

-- `none` is the error that the role is outside the festival.
unfoldable pub create_shift :
    CreateShiftInput
    → ℕ
    → ℕ
    → VolunteerRepository
    → VolunteerRepository × Option VolunteerShiftRecord
create_shift input uuid now repo =
    elim (get_role input.organization_id input.festival_id input.role_id repo) [
      | none ↦ (repo, none)
      | some role ↦ (
        record repo { shifts = insert uuid (new_shift input uuid now) repo.shifts },
        some (new_shift input uuid now),
      )
    ]

-- The shift of the organization, the festival and the role, where it is theirs.
abbrev pub shift_of : ℕ → ℕ → ℕ → Option VolunteerShiftRecord → Option VolunteerShiftRecord
shift_of organization_id festival_id role_id none = none
shift_of organization_id festival_id role_id (some shift) =
    if shift.organization_id == organization_id
      && shift.festival_id == festival_id
      && shift.role_id == role_id
    then some shift
    else none

abbrev pub shift_details : UpdateShiftInput → VolunteerShiftRecord → VolunteerShiftRecord
shift_details input shift = record shift {
  date = input.date;
  period = input.period;
  time_text = input.time_text;
  division = input.division;
  adjudicator = input.adjudicator;
}

unfoldable pub update_shift :
    UpdateShiftInput → VolunteerRepository → VolunteerRepository × Option VolunteerShiftRecord
update_shift input repo =
    elim (shift_of input.organization_id input.festival_id input.role_id
      (lookup input.shift_id repo.shifts)) [
        | none ↦ (repo, none)
        | some shift ↦ (
          record repo { shifts = insert shift.id (shift_details input shift) repo.shifts },
          some (shift_details input shift),
        )
      ]

-- A shift and its assignments.
unfoldable pub delete_shift : ℕ → ℕ → ℕ → ℕ → VolunteerRepository → VolunteerRepository × Bool
delete_shift organization_id festival_id role_id shift_id repo =
    elim (shift_of organization_id festival_id role_id (lookup shift_id repo.shifts)) [
      | none ↦ (repo, false)
      | some shift ↦ (
        record repo {
          shifts = remove shift_id repo.shifts;
          assignments = discard (λ a. a.shift_id == shift_id) repo.assignments;
        },
        true,
      )
    ]

unfoldable pub list_shifts_for_role : ℕ → ℕ → ℕ → VolunteerRepository → List VolunteerShiftRecord
list_shifts_for_role organization_id festival_id role_id repo =
    filter
      (λ shift.
        shift.organization_id == organization_id
        && shift.festival_id == festival_id
        && shift.role_id == role_id)
      (values repo.shifts)
