-- ===== src/Volunteers/Booking.antt =====
-- The assignments of `class InMemoryVolunteerRepository` of
-- packages/backend/src/volunteers/volunteer-repository.ts. The key `date:period` of a shift is the
-- pair; the calls of `randomUUID` of one booking are a function of their number.
use festival.Volunteers.Records.{
  period_eq, booked, conflict, active, BookShiftsOutcome, cancelled, VolunteerRecord,
  BookShiftsInput, VolunteerAssignmentRecord, CancelAssignmentInput, VolunteerRepository,
  VolunteerShiftRecord, is_active,
}
use festival.Base.{
  values, insert, nat_eq, ◌||◌, any, none, map, ◌++◌, add, suc, not, ◌&&◌, some, filter, [], ◌∷◌,
  ◌==◌, false, lookup, Dict, List, Option, Bool, ℕ, if◌then◌else◌,
}

-- The shift is there and of the organization and the festival.
abbrev pub is_shift_of : ℕ → ℕ → Option VolunteerShiftRecord → Bool
is_shift_of organization_id festival_id none = false
is_shift_of organization_id festival_id (some shift) =
    shift.organization_id == organization_id && shift.festival_id == festival_id

unfoldable pub missing_ids : ℕ → ℕ → List ℕ → VolunteerRepository → List ℕ
missing_ids organization_id festival_id shift_ids repo =
    filter (λ id. not (is_shift_of organization_id festival_id (lookup id repo.shifts))) shift_ids

-- `this.shifts.get` of each, without those that are missing.
unfoldable pub get_shifts : List ℕ → VolunteerRepository → List VolunteerShiftRecord
get_shifts [] repo = []
get_shifts (id ∷ ids) repo =
    let rest = get_shifts ids repo in
    elim (lookup id repo.shifts) [ none ↦ rest | some shift ↦ shift ∷ rest ]

-- An active assignment of the shift.
unfoldable pub is_active_on : ℕ → VolunteerAssignmentRecord → Bool
is_active_on shift_id a = a.shift_id == shift_id && is_active a.status

unfoldable pub taken_ids : List ℕ → VolunteerRepository → List ℕ
taken_ids shift_ids repo = filter (λ id. any (is_active_on id) (values repo.assignments)) shift_ids

abbrev pub same_period : VolunteerShiftRecord → VolunteerShiftRecord → Bool
same_period a b = a.date == b.date && period_eq a.period b.period

-- The shifts of the festival that the volunteer holds.
unfoldable pub held_shifts : ℕ → ℕ → VolunteerRepository → List VolunteerShiftRecord
unfolding get_shifts
held_shifts festival_id volunteer_id repo =
    filter (λ shift. shift.festival_id == festival_id)
      (get_shifts
        (map (λ a. a.shift_id)
          (filter (λ a. is_active a.status && a.volunteer_id == volunteer_id)
            (values repo.assignments)))
        repo)

-- The loop over the requested shifts; `seen` are those that it has passed.
unfoldable pub period_conflict_ids :
    List VolunteerShiftRecord → List VolunteerShiftRecord → List VolunteerShiftRecord → List ℕ
period_conflict_ids held seen [] = []
period_conflict_ids held seen (shift ∷ shifts) =
    let rest = period_conflict_ids held (shift ∷ seen) shifts in
    if any (same_period shift) held || any (same_period shift) seen then shift.id ∷ rest else rest

-- `[...new Set(ids)]`
abbrev pub distinct_from : List ℕ → List ℕ → List ℕ
distinct_from s [] = s
distinct_from s (id ∷ ids) = distinct_from (add id s) ids

abbrev pub new_assignment : BookShiftsInput → ℕ → ℕ → ℕ → VolunteerAssignmentRecord
new_assignment input uuid now shift_id = record {
  id = uuid;
  organization_id = input.organization_id;
  shift_id = shift_id;
  volunteer_id = input.volunteer_id;
  status = active;
  created_at = now;
  cancelled_at = none;
}

-- One assignment for each shift; `n` calls of `randomUUID` are made.
unfoldable pub assign_shifts :
    BookShiftsInput
    → (ℕ → ℕ)
    → ℕ
    → ℕ
    → List ℕ
    → Dict ℕ VolunteerAssignmentRecord
    → Dict ℕ VolunteerAssignmentRecord × List VolunteerAssignmentRecord
assign_shifts input uuid now n [] assignments = (assignments, [])
assign_shifts input uuid now n (shift_id ∷ ids) assignments =
    let a = new_assignment input (uuid n) now shift_id in
    let (assignments', rest) =
      assign_shifts input uuid now (suc n) ids (insert (uuid n) a assignments) in
    (assignments', a ∷ rest)

-- The conflicts of a request whose shifts are all there.
unfoldable pub conflict_ids : BookShiftsInput → VolunteerRepository → List ℕ
conflict_ids input repo = distinct_from [] (
    taken_ids input.shift_ids repo
    ++ period_conflict_ids (held_shifts input.festival_id input.volunteer_id repo) []
        (get_shifts input.shift_ids repo))

abbrev pub is_volunteer_of : ℕ → ℕ → Option VolunteerRecord → Bool
is_volunteer_of organization_id festival_id none = false
is_volunteer_of organization_id festival_id (some volunteer) =
    volunteer.organization_id == organization_id && volunteer.festival_id == festival_id

-- The end of a booking: the conflicts, or the assignments.
unfoldable pub book_or_conflict :
    BookShiftsInput
    → (ℕ → ℕ)
    → ℕ
    → List ℕ
    → VolunteerRepository
    → VolunteerRepository × BookShiftsOutcome
book_or_conflict input uuid now [] repo =
    let (assignments', added) = assign_shifts input uuid now 0 input.shift_ids repo.assignments in
    (record repo { assignments = assignments' }, booked added)
book_or_conflict input uuid now (id ∷ ids) repo = (repo, conflict (id ∷ ids))

-- What follows where the volunteer is of the festival.
unfoldable pub book_existing :
    BookShiftsInput
    → (ℕ → ℕ)
    → ℕ
    → List ℕ
    → VolunteerRepository
    → VolunteerRepository × BookShiftsOutcome
book_existing input uuid now [] repo =
    book_or_conflict input uuid now (conflict_ids input repo) repo
book_existing input uuid now (id ∷ ids) repo = (repo, conflict (id ∷ ids))

unfoldable pub book_shifts :
    BookShiftsInput → (ℕ → ℕ) → ℕ → VolunteerRepository → VolunteerRepository × BookShiftsOutcome
book_shifts input uuid now repo =
    if is_volunteer_of input.organization_id input.festival_id
      (lookup input.volunteer_id repo.volunteers)
    then book_existing input uuid now
        (missing_ids input.organization_id input.festival_id input.shift_ids repo) repo
    else (repo, conflict input.shift_ids)

abbrev pub cancel : ℕ → VolunteerAssignmentRecord → VolunteerAssignmentRecord
cancel now a = record a { status = cancelled; cancelled_at = some now }

abbrev pub is_festival : ℕ → Option VolunteerShiftRecord → Bool
is_festival festival_id none = false
is_festival festival_id (some shift) = shift.festival_id == festival_id

-- The assignment may be cancelled: it is active, and of the organization and the festival.
unfoldable pub is_cancellable :
    CancelAssignmentInput → VolunteerRepository → VolunteerAssignmentRecord → Bool
is_cancellable input repo a =
    a.organization_id == input.organization_id
    && is_festival input.festival_id (lookup a.shift_id repo.shifts)
    && is_active a.status

unfoldable pub cancel_assignment :
    CancelAssignmentInput
    → VolunteerRepository
    → VolunteerRepository × Option VolunteerAssignmentRecord
cancel_assignment input repo = elim (lookup input.assignment_id repo.assignments) [
  | none ↦ (repo, none)
  | some a ↦
      if is_cancellable input repo a
      then (
        record repo {
          assignments = insert input.assignment_id (cancel input.cancelled_at a) repo.assignments;
        },
        some (cancel input.cancelled_at a),
      )
      else (repo, none)
]
