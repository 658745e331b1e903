-- ===== src/Volunteers/Exclusive.antt =====
-- A booking gives a shift to one volunteer at most.
use festival.Volunteers.Invariant.{HasShift}
use festival.Volunteers.Booking.{
  cancel, is_shift_of, new_assignment, is_active_on, assign_shifts, distinct_from, get_shifts,
  same_period, missing_ids, taken_ids, period_conflict_ids,
}
use festival.Volunteers.Records.{
  VolunteerAssignmentRecord, VolunteerShiftRecord, BookShiftsInput, VolunteerRepository,
}
use festival.Base.{
  count-values-insert, ◌++◌, ◌≢◌, inr, inl, insert-All, count-values-insert_new, insert-Keyed,
  Bool-cases, add, lookup-insert_ne, refl, ◌⊎◌, ◌+◌, Option-cases, nat_eq, some, ◌==◌, arith,
  is_some, none, values, insert, count, Keyed, lookup, All, ◌∷◌, suc, true, false, any, [], List,
  Dict, ℕ, ◌≡◌, ◌≤◌,
}

-- What `randomUUID` promises of the identifiers of one booking: they are new, and each another.
pub record IsFresh (uuid : ℕ → ℕ) (n : ℕ) (m : Dict ℕ VolunteerAssignmentRecord) : Type 0 where
  pub new : (i : ℕ) → n ≤ i → lookup (uuid i) m ≡ none
  pub distinct : (i j : ℕ) → uuid i ≡ uuid j → i ≡ j

insert-IsFresh :
    (uuid : ℕ → ℕ) (n : ℕ) (m : Dict ℕ VolunteerAssignmentRecord) (a : VolunteerAssignmentRecord)
    → IsFresh uuid n m
    → IsFresh uuid (suc n) (insert (uuid n) a m)
insert-IsFresh uuid n m a f = record {
  new = λ i h. ground (arith, f.new i, f.distinct n i, lookup-insert_ne (uuid n) (uuid i) a m);
  distinct = f.distinct;
}

module _ (input : BookShiftsInput) (uuid : ℕ → ℕ) (now : ℕ) where
  pub assign_shifts-count :
      (id n : ℕ) (ids : List ℕ) (m : Dict ℕ VolunteerAssignmentRecord)
      → IsFresh uuid n m
      → count (is_active_on id) (values (assign_shifts input uuid now n ids m).0)
        ≡ count (is_active_on id) (values m) + count (λ i. i == id) ids
  unfolding assign_shifts is_active_on
  assign_shifts-count id n [] m f = omega arith
  assign_shifts-count id n (i ∷ ids) m f =
      let a = new_assignment input (uuid n) now i in
      ground (
        arith,
        assign_shifts-count id (suc n) ids (insert (uuid n) a m) (insert-IsFresh uuid n m a f),
        count-values-insert_new (is_active_on id) (uuid n) a m (f.new n (omega arith)),
      )

  pub assign_shifts-Keyed :
      (n : ℕ) (ids : List ℕ) (m : Dict ℕ VolunteerAssignmentRecord)
      → Keyed (λ a. a.id) m
      → Keyed (λ a. a.id) (assign_shifts input uuid now n ids m).0
  unfolding assign_shifts
  assign_shifts-Keyed n [] m k = k
  assign_shifts-Keyed n (i ∷ ids) m k =
      assign_shifts-Keyed (suc n) ids (insert (uuid n) (new_assignment input (uuid n) now i) m)
        (insert-Keyed (λ a. a.id) (uuid n) (new_assignment input (uuid n) now i) m refl k)

  pub assign_shifts-HasShift :
      (shifts : Dict ℕ VolunteerShiftRecord) (n : ℕ) (ids : List ℕ)
      → (m : Dict ℕ VolunteerAssignmentRecord) → All (λ i. is_some (lookup i shifts) ≡ true) ids
      → All (HasShift shifts) (values m)
      → All (HasShift shifts) (values (assign_shifts input uuid now n ids m).0)
  unfolding assign_shifts
  assign_shifts-HasShift shifts n [] m h l = l
  assign_shifts-HasShift shifts n (i ∷ ids) m (s, h) l =
      let a = new_assignment input (uuid n) now i in
      assign_shifts-HasShift shifts (suc n) ids (insert (uuid n) a m) h
        (insert-All (HasShift shifts) (uuid n) a m s l)

pub missing_ids-none :
    (organization_id festival_id : ℕ) (ids : List ℕ) (repo : VolunteerRepository)
    → missing_ids organization_id festival_id ids repo ≡ []
    → All (λ i. is_some (lookup i repo.shifts) ≡ true) ids
unfolding missing_ids
missing_ids-none organization_id festival_id [] repo h = tt
missing_ids-none organization_id festival_id (i ∷ ids) repo h =
    elim (Bool-cases (is_shift_of organization_id festival_id (lookup i repo.shifts))) [
      | inl k ↦ (
        ground (arith, k),
        missing_ids-none organization_id festival_id ids repo (ground (arith, h, k)),
      )
      | inr k ↦ absurd (ground (arith, h, k))
    ]

pub taken_ids-none :
    (id : ℕ) (ids : List ℕ) (repo : VolunteerRepository)
    → taken_ids ids repo ≡ []
    → (count (λ i. i == id) ids ≡ 0) ⊎ (any (is_active_on id) (values repo.assignments) ≡ false)
unfolding taken_ids
taken_ids-none id [] repo h = inl refl
taken_ids-none id (i ∷ ids) repo h =
    elim (Bool-cases (any (is_active_on i) (values repo.assignments))) [
      | inl k ↦ absurd (ground (arith, h, k))
      | inr k ↦ elim (Bool-cases (i == id)) [
        | inl e ↦ inr (ground (arith, e, k))
        | inr e ↦ ground (arith, e, taken_ids-none id ids repo (ground (arith, h, k)))
      ]
    ]

-- A shift of a period that was passed is not requested again.
period_conflict_ids-seen :
    (held seen : List VolunteerShiftRecord) (id : ℕ) (shift : VolunteerShiftRecord)
    → (ids : List ℕ) (repo : VolunteerRepository)
    → All (λ i. is_some (lookup i repo.shifts) ≡ true) ids
    → lookup id repo.shifts ≡ some shift
    → any (same_period shift) seen ≡ true
    → period_conflict_ids held seen (get_shifts ids repo) ≡ []
    → count (λ i. i == id) ids ≡ 0
unfolding period_conflict_ids get_shifts
period_conflict_ids-seen held seen id shift [] repo l f s h = refl
period_conflict_ids-seen held seen id shift (i ∷ ids) repo (k, l) f s h =
    elim (Option-cases (lookup i repo.shifts)) [
      | inl n ↦ absurd (ground (arith, n, k))
      | inr (x, n) ↦ elim (Bool-cases (i == id)) [
        | inl e ↦ absurd (ground (arith, e, n, f, s, h))
        | inr e ↦ ground (
          arith,
          e,
          period_conflict_ids-seen held (x ∷ seen) id shift ids repo l f (ground (arith, s))
              (ground (arith, h, n)),
        )
      ]
    ]

same_period_refl : (shift : VolunteerShiftRecord) → same_period shift shift ≡ true
same_period_refl shift = ground arith

pub period_conflict_ids-none :
    (held seen : List VolunteerShiftRecord) (id : ℕ) (ids : List ℕ) (repo : VolunteerRepository)
    → All (λ i. is_some (lookup i repo.shifts) ≡ true) ids
    → period_conflict_ids held seen (get_shifts ids repo) ≡ []
    → count (λ i. i == id) ids ≤ 1
unfolding period_conflict_ids get_shifts
period_conflict_ids-none held seen id [] repo l h = omega arith
period_conflict_ids-none held seen id (i ∷ ids) repo (k, l) h =
    elim (Option-cases (lookup i repo.shifts)) [
      | inl n ↦ absurd (ground (arith, n, k))
      | inr (x, n) ↦
          let rest : period_conflict_ids held (x ∷ seen) (get_shifts ids repo) ≡ [] =
            ground (arith, h, n) in
          elim (Bool-cases (i == id)) [
            | inl e ↦ ground (
              arith,
              e,
              period_conflict_ids-seen held (x ∷ seen) i x ids repo l n
                  (ground (arith, same_period_refl x)) rest,
            )
            | inr e ↦ ground (arith, e, period_conflict_ids-none held (x ∷ seen) id ids repo l rest)
          ]
    ]

add-nonempty : (i : ℕ) (s : List ℕ) → add i s ≢ []
add-nonempty i [] h = cc
add-nonempty i (x ∷ s) h = ground (arith, h)

distinct_from-none : (s ids : List ℕ) → distinct_from s ids ≡ [] → (s ≡ []) × (ids ≡ [])
distinct_from-none s [] h = (h, refl)
distinct_from-none s (i ∷ ids) h = absurd (add-nonempty i s (distinct_from-none (add i s) ids h).0)

pub no_conflict_parts : (xs ys : List ℕ) → distinct_from [] (xs ++ ys) ≡ [] → (xs ≡ []) × (ys ≡ [])
no_conflict_parts [] ys h = (refl, (distinct_from-none [] ys h).1)
no_conflict_parts (x ∷ xs) ys h = absurd (ground (arith, distinct_from-none [] (x ∷ xs ++ ys) h))

pub cancel-one_active :
    (id k now : ℕ) (a : VolunteerAssignmentRecord) (m : Dict ℕ VolunteerAssignmentRecord)
    → lookup k m ≡ some a
    → count (is_active_on id) (values m) ≤ 1
    → count (is_active_on id) (values (insert k (cancel now a) m)) ≤ 1
unfolding is_active_on
cancel-one_active id k now a m h c =
    ground (arith, c, count-values-insert (is_active_on id) k a (cancel now a) m h)
