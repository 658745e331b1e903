-- ===== src/Volunteers/Reach.antt =====
-- What holds after every sequence of calls of the repository of
-- packages/backend/src/volunteers/volunteer-repository.ts.
use festival.Volunteers.Deletion.{delete_shift-IsSchedule, delete_role-IsSchedule}
use festival.Volunteers.Exclusive.{
  period_conflict_ids-none, taken_ids-none, assign_shifts-count, assign_shifts-HasShift,
  assign_shifts-Keyed, cancel-one_active, no_conflict_parts, missing_ids-none, IsFresh,
}
use festival.Volunteers.Repository.{
  delete_shift, update_shift, create_shift, delete_role, update_role, create_role, upsert_volunteer,
}
use festival.Volunteers.Invariant.{
  HasShift, update_shift-IsSchedule, create_shift-IsSchedule, update_role-IsSchedule,
  create_role-IsSchedule, upsert_volunteer-IsSchedule, no_volunteers-IsSchedule, IsSchedule,
  no_volunteers,
}
use festival.Volunteers.Booking.{
  is_active_on, get_shifts, period_conflict_ids, taken_ids, cancel, held_shifts, is_volunteer_of,
  is_cancellable, missing_ids, conflict_ids, book_existing, book_shifts, cancel_assignment,
  book_or_conflict,
}
use festival.Volunteers.Records.{
  UpdateShiftInput, CreateShiftInput, UpdateRoleInput, CreateRoleInput, BookShiftsInput,
  UpsertVolunteerInput, CancelAssignmentInput, VolunteerRepository,
}
use festival.Base.{
  any-none, [], values, arith, lookup-All, refl, insert-All, nat_eq, insert-Keyed, List-cases, ◌∷◌,
  lookup_key, true, is_some, Bool-cases, inr, All, inl, lookup, List, Option-cases, ℕ, ◌≡◌,
}

-- A request without conflicts is booked: each shift is there, free and asked for once.
book_or_conflict-IsSchedule :
    (input : BookShiftsInput) (uuid : ℕ → ℕ) (now : ℕ) (conflicts : List ℕ)
    → (repo : VolunteerRepository) → IsSchedule repo
    → IsFresh uuid 0 repo.assignments
    → conflict_ids input repo ≡ conflicts
    → All (λ i. is_some (lookup i repo.shifts) ≡ true) input.shift_ids
    → IsSchedule (book_or_conflict input uuid now conflicts repo).0
unfolding book_or_conflict conflict_ids
book_or_conflict-IsSchedule input uuid now (i ∷ ids) repo v fresh e l = v
book_or_conflict-IsSchedule input uuid now [] repo v fresh e l =
    let held = held_shifts input.festival_id input.volunteer_id repo in
    let (taken, periods) =
      no_conflict_parts (taken_ids input.shift_ids repo)
        (period_conflict_ids held [] (get_shifts input.shift_ids repo)) e in
    record {
      shifts_keyed = v.shifts_keyed;
      assignments_keyed =
          assign_shifts-Keyed input uuid now 0 input.shift_ids repo.assignments v.assignments_keyed;
      shifts_linked = v.shifts_linked;
      assignments_linked =
          assign_shifts-HasShift input uuid now repo.shifts 0 input.shift_ids repo.assignments l
            v.assignments_linked;
      one_active = λ id. ground (
        arith,
        assign_shifts-count input uuid now id 0 input.shift_ids repo.assignments fresh,
        v.one_active id,
        taken_ids-none id input.shift_ids repo taken,
        any-none (is_active_on id) (values repo.assignments),
        period_conflict_ids-none held [] id input.shift_ids repo l periods,
      );
    }

pub book_shifts-IsSchedule :
    (input : BookShiftsInput) (uuid : ℕ → ℕ) (now : ℕ) (repo : VolunteerRepository)
    → IsSchedule repo
    → IsFresh uuid 0 repo.assignments
    → IsSchedule (book_shifts input uuid now repo).0
unfolding book_shifts book_existing
book_shifts-IsSchedule input uuid now repo v fresh =
    let missing = missing_ids input.organization_id input.festival_id input.shift_ids repo in
    elim (Bool-cases (
      is_volunteer_of input.organization_id input.festival_id
        (lookup input.volunteer_id repo.volunteers))) [
          | inr n ↦ rw (book_shifts, n) v
          | inl n ↦ elim (List-cases missing) [
            | inr (i, ids, m) ↦ rw (book_shifts, n, book_existing, m) v
            | inl m ↦
                rw (book_shifts, n, book_existing, m)
                  (book_or_conflict-IsSchedule input uuid now (conflict_ids input repo) repo v fresh
                    refl
                    (missing_ids-none input.organization_id input.festival_id input.shift_ids repo
                      m))
          ]
        ]

pub cancel_assignment-IsSchedule :
    (input : CancelAssignmentInput) (repo : VolunteerRepository)
    → IsSchedule repo
    → IsSchedule (cancel_assignment input repo).0
unfolding cancel_assignment
cancel_assignment-IsSchedule input repo v =
    elim (Option-cases (lookup input.assignment_id repo.assignments)) [
      | inl n ↦ rw (cancel_assignment, n) v
      | inr (a, n) ↦ elim (Bool-cases (is_cancellable input repo a)) [
        | inr c ↦ rw (cancel_assignment, n, c) v
        | inl c ↦
            let key =
              lookup_key (λ a. a.id) input.assignment_id a repo.assignments v.assignments_keyed n in
            rw (cancel_assignment, n, c)
              (record {
                shifts_keyed = v.shifts_keyed;
                assignments_keyed =
                    insert-Keyed (λ a. a.id) input.assignment_id (cancel input.cancelled_at a)
                      repo.assignments key v.assignments_keyed;
                shifts_linked = v.shifts_linked;
                assignments_linked =
                    insert-All (HasShift repo.shifts) input.assignment_id
                      (cancel input.cancelled_at a) repo.assignments
                      (lookup-All (HasShift repo.shifts) input.assignment_id a repo.assignments n
                        v.assignments_linked)
                      v.assignments_linked;
                one_active = λ id.
                    cancel-one_active id input.assignment_id input.cancelled_at a repo.assignments n
                      (v.one_active id);
              })
      ]
    ]

-- The repositories that calls reach from an empty one.
pub data Reach : VolunteerRepository → Type 0 where
  start : Reach no_volunteers
  upserted :
      {repo : VolunteerRepository} (input : UpsertVolunteerInput) (uuid now : ℕ)
      → Reach repo
      → Reach (upsert_volunteer input uuid now repo).0
  role_created :
      {repo : VolunteerRepository} (input : CreateRoleInput) (uuid now : ℕ)
      → Reach repo
      → Reach (create_role input uuid now repo).0
  role_updated :
      {repo : VolunteerRepository} (input : UpdateRoleInput)
      → Reach repo
      → Reach (update_role input repo).0
  role_deleted :
      {repo : VolunteerRepository} (organization_id festival_id role_id : ℕ)
      → Reach repo
      → Reach (delete_role organization_id festival_id role_id repo).0
  shift_created :
      {repo : VolunteerRepository} (input : CreateShiftInput) (uuid now : ℕ)
      → Reach repo
      → Reach (create_shift input uuid now repo).0
  shift_updated :
      {repo : VolunteerRepository} (input : UpdateShiftInput)
      → Reach repo
      → Reach (update_shift input repo).0
  shift_deleted :
      {repo : VolunteerRepository} (organization_id festival_id role_id shift_id : ℕ)
      → Reach repo
      → Reach (delete_shift organization_id festival_id role_id shift_id repo).0
  booked_shifts :
      {repo : VolunteerRepository} (input : BookShiftsInput) (uuid : ℕ → ℕ) (now : ℕ)
      → IsFresh uuid 0 repo.assignments
      → Reach repo
      → Reach (book_shifts input uuid now repo).0
  cancelled_assignment :
      {repo : VolunteerRepository} (input : CancelAssignmentInput)
      → Reach repo
      → Reach (cancel_assignment input repo).0

-- After every sequence of calls, where the identifiers that a booking is given are new and distinct:
-- a shift has one active assignment at most, every assignment has its shift and every shift its
-- role, and shifts and assignments are stored under their identifiers.
pub Reach-IsSchedule : {repo : VolunteerRepository} → Reach repo → IsSchedule repo
Reach-IsSchedule start = no_volunteers-IsSchedule
Reach-IsSchedule (upserted input uuid now r) =
    upsert_volunteer-IsSchedule input uuid now _ (Reach-IsSchedule r)
Reach-IsSchedule (role_created input uuid now r) =
    create_role-IsSchedule input uuid now _ (Reach-IsSchedule r)
Reach-IsSchedule (role_updated input r) = update_role-IsSchedule input _ (Reach-IsSchedule r)
Reach-IsSchedule (role_deleted o f i r) = delete_role-IsSchedule o f i _ (Reach-IsSchedule r)
Reach-IsSchedule (shift_created input uuid now r) =
    create_shift-IsSchedule input uuid now _ (Reach-IsSchedule r)
Reach-IsSchedule (shift_updated input r) = update_shift-IsSchedule input _ (Reach-IsSchedule r)
Reach-IsSchedule (shift_deleted o f i s r) = delete_shift-IsSchedule o f i s _ (Reach-IsSchedule r)
Reach-IsSchedule (booked_shifts input uuid now fresh r) =
    book_shifts-IsSchedule input uuid now _ (Reach-IsSchedule r) fresh
Reach-IsSchedule (cancelled_assignment input r) =
    cancel_assignment-IsSchedule input _ (Reach-IsSchedule r)
