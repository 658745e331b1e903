-- ===== src/Volunteers/Deletion.antt =====
-- Deleting a role or a shift with all that depends on it.
use festival.Volunteers.Booking.{is_active_on}
use festival.Volunteers.Invariant.{HasRole, IsSchedule, HasShift}
use festival.Volunteers.Repository.{
  shift_of, get_role, delete_shift, delete_role, shift_ids_for_role,
}
use festival.Volunteers.Records.{
  VolunteerAssignmentRecord, VolunteerShiftRecord, VolunteerRepository,
}
use festival.Base.{
  count-discard, discard-All, lookup-discard, nat_eq, lookup-remove_ne, Bool-cases, All-map,
  remove-All, lookup_key, discard-Keyed, [], remove-Keyed, ◌∷◌, inr, arith, values, inl, filter,
  Option-cases, discard, map, false, ◌==◌, true, some, contains, lookup, Dict, Keyed, Bool, ℕ, ◌≡◌,
}

filter-contains :
    (p : VolunteerShiftRecord → Bool) (shift : VolunteerShiftRecord)
    → (shifts : Dict ℕ VolunteerShiftRecord) (k : ℕ) → lookup k shifts ≡ some shift
    → p shift ≡ true
    → contains shift.id (map (λ s. s.id) (filter p (values shifts))) ≡ true
filter-contains p shift [] k h q = cc
filter-contains p shift ((j, s) ∷ m) k h q = elim (Bool-cases (j == k)) [
  | inl e ↦ ground (arith, h, e, q)
  | inr e ↦ ground (arith, e, filter-contains p shift m k (ground (arith, h, e)) q)
]

-- An assignment that is kept is of a shift that is kept.
kept_shift :
    (role_id : ℕ) (repo : VolunteerRepository) (a : VolunteerAssignmentRecord)
    → Keyed (λ s. s.id) repo.shifts
    → HasShift repo.shifts a
    → contains a.shift_id (shift_ids_for_role role_id repo) ≡ false
    → HasShift (discard (λ s. s.role_id == role_id) repo.shifts) a
unfolding shift_ids_for_role
kept_shift role_id repo a keyed h k = elim (Option-cases (lookup a.shift_id repo.shifts)) [
  | inl n ↦ absurd (ground (arith, n, h))
  | inr (shift, n) ↦
      let key = lookup_key (λ s. s.id) a.shift_id shift repo.shifts keyed n in
      elim (Bool-cases (shift.role_id == role_id)) [
        | inl r ↦ absurd (
            ground (
              arith,
              k,
              key,
              filter-contains (λ s. s.role_id == role_id) shift repo.shifts a.shift_id n r,
            ))
        | inr r ↦
            ground
              (arith, lookup-discard (λ s. s.role_id == role_id) a.shift_id shift repo.shifts n r)
      ]
]

pub delete_role-IsSchedule :
    (organization_id festival_id role_id : ℕ) (repo : VolunteerRepository)
    → IsSchedule repo
    → IsSchedule (delete_role organization_id festival_id role_id repo).0
unfolding delete_role
delete_role-IsSchedule organization_id festival_id role_id repo v =
    let of_role : VolunteerShiftRecord → Bool = λ s. s.role_id == role_id in
    let deleted : VolunteerAssignmentRecord → Bool =
      λ a. contains a.shift_id (shift_ids_for_role role_id repo) in
    elim (Option-cases (get_role organization_id festival_id role_id repo)) [
      | inl n ↦ rw (delete_role, n) v
      | inr (role, n) ↦
          rw (delete_role, n)
            (record {
              shifts_keyed = discard-Keyed (λ s. s.id) of_role repo.shifts v.shifts_keyed;
              assignments_keyed =
                  discard-Keyed (λ a. a.id) deleted repo.assignments v.assignments_keyed;
              shifts_linked =
                  All-map
                    (λ s (h, k). ground (arith, h, lookup-remove_ne s.role_id role_id repo.roles))
                    (values (discard of_role repo.shifts))
                    (discard-All (HasRole repo.roles) of_role repo.shifts v.shifts_linked);
              assignments_linked =
                  All-map (λ a (h, k). kept_shift role_id repo a v.shifts_keyed h k)
                    (values (discard deleted repo.assignments))
                    (discard-All (HasShift repo.shifts) deleted repo.assignments
                      v.assignments_linked);
              one_active = λ id. omega (
                arith,
                count-discard (is_active_on id) deleted repo.assignments,
                v.one_active id,
              );
            })
    ]

pub delete_shift-IsSchedule :
    (organization_id festival_id role_id shift_id : ℕ) (repo : VolunteerRepository)
    → IsSchedule repo
    → IsSchedule (delete_shift organization_id festival_id role_id shift_id repo).0
unfolding delete_shift
delete_shift-IsSchedule organization_id festival_id role_id shift_id repo v =
    let deleted : VolunteerAssignmentRecord → Bool = λ a. a.shift_id == shift_id in
    elim (Option-cases
      (shift_of organization_id festival_id role_id (lookup shift_id repo.shifts))) [
        | inl n ↦ rw (delete_shift, n) v
        | inr (shift, n) ↦
            rw (delete_shift, n)
              (record {
                shifts_keyed = remove-Keyed (λ s. s.id) shift_id repo.shifts v.shifts_keyed;
                assignments_keyed =
                    discard-Keyed (λ a. a.id) deleted repo.assignments v.assignments_keyed;
                shifts_linked =
                    remove-All (HasRole repo.roles) shift_id repo.shifts v.shifts_linked;
                assignments_linked =
                    All-map
                      (λ a (h, k).
                        ground (arith, h, lookup-remove_ne a.shift_id shift_id repo.shifts))
                      (values (discard deleted repo.assignments))
                      (discard-All (HasShift repo.shifts) deleted repo.assignments
                        v.assignments_linked);
                one_active = λ id. omega (
                  arith,
                  count-discard (is_active_on id) deleted repo.assignments,
                  v.one_active id,
                );
              })
      ]
