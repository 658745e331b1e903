-- ===== src/Volunteers/Tests.antt =====
-- Runs of the repository of packages/backend/src/volunteers/volunteer-repository.ts, and the
-- witnesses.
use festival.Volunteers.Total.{list_schedule_for_organization-total}
use festival.Volunteers.Listing.{list_schedule_for_organization, ScheduleEntry}
use festival.Volunteers.Booking.{held_shifts, book_shifts}
use festival.Volunteers.Repository.{
  update_shift, create_role, create_shift, delete_role, upsert_volunteer,
}
use festival.Volunteers.Exclusive.{IsFresh}
use festival.Volunteers.Records.{
  UpdateShiftInput, conflict, am, BookShiftsInput, UpsertVolunteerInput, BookShiftsOutcome,
  CreateShiftInput, CreateRoleInput, VolunteerRepository,
}
use festival.Volunteers.Reach.{
  start, role_created, shift_created, upserted, booked_shifts, Reach, Reach-IsSchedule,
}
use festival.Volunteers.Invariant.{no_volunteers, IsSchedule}
use festival.Base.{
  ◌&&◌, ◌==◌, filter, inr, nat_eq, true, values, none, ◌∷◌, arith, List, map, ◌+◌, [], ℕ, refl, ◌≡◌,
}

abbrev proctor : CreateRoleInput
proctor = record {
  organization_id = 1;
  festival_id = 2;
  slug = 3;
  display_name = 4;
  description = 5;
  details_url = none;
  is_room_proctor = true;
}

abbrev shift_on : ℕ → CreateShiftInput
shift_on date = record {
  organization_id = 1;
  festival_id = 2;
  role_id = 10;
  date = date;
  period = am;
  time_text = none;
  division = none;
  adjudicator = none;
}

abbrev person : UpsertVolunteerInput
person = record {
  organization_id = 1;
  festival_id = 2;
  firebase_uid = 7;
  account_email = 8;
  name = 9;
  phone = 11;
}

abbrev request : List ℕ → BookShiftsInput
request ids = record { organization_id = 1; festival_id = 2; volunteer_id = 30; shift_ids = ids }

abbrev two_shifts : VolunteerRepository
two_shifts =
    (upsert_volunteer person 30 103
      (create_shift (shift_on 501) 21 102
        (create_shift (shift_on 500) 20 101 (create_role proctor 10 100 no_volunteers).0).0).0).0

abbrev uuids : ℕ → ℕ
uuids n = n + 40

abbrev both_booked : VolunteerRepository × BookShiftsOutcome
both_booked = book_shifts (request (20 ∷ 21 ∷ [])) uuids 104 two_shifts

both_booked_assignments : map (λ a. a.shift_id) (values both_booked.0.assignments) ≡ 20 ∷ 21 ∷ []
unfolding book_shifts upsert_volunteer festival.Volunteers.Repository.find_volunteer_by_uid
    create_shift festival.Volunteers.Repository.get_role create_role
    festival.Volunteers.Booking.book_existing festival.Volunteers.Booking.missing_ids
    festival.Volunteers.Booking.book_or_conflict festival.Volunteers.Booking.conflict_ids
    festival.Volunteers.Booking.taken_ids festival.Volunteers.Booking.period_conflict_ids
    festival.Volunteers.Booking.get_shifts festival.Volunteers.Booking.held_shifts
    festival.Volunteers.Booking.assign_shifts
both_booked_assignments = refl

-- The same shift twice, and a shift that is taken, are conflicts.
twice_conflict : (book_shifts (request (20 ∷ 20 ∷ [])) uuids 104 two_shifts).1 ≡ conflict (20 ∷ [])
unfolding book_shifts upsert_volunteer festival.Volunteers.Repository.find_volunteer_by_uid
    create_shift festival.Volunteers.Repository.get_role create_role
    festival.Volunteers.Booking.book_existing festival.Volunteers.Booking.missing_ids
    festival.Volunteers.Booking.book_or_conflict festival.Volunteers.Booking.conflict_ids
    festival.Volunteers.Booking.taken_ids festival.Volunteers.Booking.period_conflict_ids
    festival.Volunteers.Booking.get_shifts festival.Volunteers.Booking.held_shifts
twice_conflict = refl

taken_conflict : (book_shifts (request (21 ∷ [])) uuids 105 both_booked.0).1 ≡ conflict (21 ∷ [])
unfolding book_shifts upsert_volunteer festival.Volunteers.Repository.find_volunteer_by_uid
    create_shift festival.Volunteers.Repository.get_role create_role
    festival.Volunteers.Booking.book_existing festival.Volunteers.Booking.missing_ids
    festival.Volunteers.Booking.book_or_conflict festival.Volunteers.Booking.conflict_ids
    festival.Volunteers.Booking.taken_ids festival.Volunteers.Booking.period_conflict_ids
    festival.Volunteers.Booking.get_shifts festival.Volunteers.Booking.held_shifts
    festival.Volunteers.Booking.assign_shifts festival.Volunteers.Booking.is_active_on
taken_conflict = refl

abbrev to_first_date : UpdateShiftInput
to_first_date = record {
  organization_id = 1;
  festival_id = 2;
  role_id = 10;
  shift_id = 21;
  date = 500;
  period = am;
  time_text = none;
  division = none;
  adjudicator = none;
}

-- A shift that is booked is moved to the period of another one of the same volunteer.
moved_into_conflict :
    map (λ shift. shift.date) (held_shifts 2 30 (update_shift to_first_date both_booked.0).0)
    ≡ 500 ∷ 500 ∷ []
unfolding held_shifts update_shift book_shifts upsert_volunteer
    festival.Volunteers.Repository.find_volunteer_by_uid create_shift
    festival.Volunteers.Repository.get_role create_role festival.Volunteers.Booking.book_existing
    festival.Volunteers.Booking.missing_ids festival.Volunteers.Booking.book_or_conflict
    festival.Volunteers.Booking.conflict_ids festival.Volunteers.Booking.taken_ids
    festival.Volunteers.Booking.period_conflict_ids festival.Volunteers.Booking.assign_shifts
moved_into_conflict = refl

abbrev both_deleted : VolunteerRepository
both_deleted = (delete_role 1 2 10 both_booked.0).0

deleted_assignments : both_deleted.assignments ≡ []
unfolding delete_role festival.Volunteers.Repository.get_role book_shifts upsert_volunteer
    festival.Volunteers.Repository.find_volunteer_by_uid create_shift create_role
    festival.Volunteers.Booking.book_existing festival.Volunteers.Booking.missing_ids
    festival.Volunteers.Booking.book_or_conflict festival.Volunteers.Booking.conflict_ids
    festival.Volunteers.Booking.taken_ids festival.Volunteers.Booking.period_conflict_ids
    festival.Volunteers.Booking.get_shifts festival.Volunteers.Booking.held_shifts
    festival.Volunteers.Booking.assign_shifts festival.Volunteers.Repository.shift_ids_for_role
    festival.Volunteers.Booking.is_active_on festival.Volunteers.Repository.is_volunteer
deleted_assignments = refl

two_shifts_reached : Reach two_shifts
two_shifts_reached = upserted person 30 103 (
    shift_created (shift_on 501) 21 102
      (shift_created (shift_on 500) 20 101 (role_created proctor 10 100 start)))

uuids-IsFresh : IsFresh uuids 0 two_shifts.assignments
unfolding upsert_volunteer festival.Volunteers.Repository.find_volunteer_by_uid create_shift
    festival.Volunteers.Repository.get_role create_role
uuids-IsFresh = record { new = λ i h. refl; distinct = λ i j h. omega (arith, h) }

both_booked_reached : Reach both_booked.0
both_booked_reached =
    booked_shifts (request (20 ∷ 21 ∷ [])) uuids 104 uuids-IsFresh two_shifts_reached

Reach-IsSchedule_example : IsSchedule both_booked.0
Reach-IsSchedule_example = Reach-IsSchedule both_booked_reached

list_schedule_for_organization-total_example :
    (entries : List ScheduleEntry) × (list_schedule_for_organization 1 2 both_booked.0
      ≡ inr entries)
    × (map (λ e. e.shift) entries
        ≡ filter
            (λ shift. shift.organization_id == 1 && shift.festival_id == 2)
            (values both_booked.0.shifts))
list_schedule_for_organization-total_example =
    list_schedule_for_organization-total 1 2 both_booked_reached
