-- ===== src/Volunteers/Total.antt =====
-- The listings of packages/backend/src/volunteers/volunteer-repository.ts never find a shift without
-- its role.
use festival.Volunteers.Reach.{Reach, Reach-IsSchedule}
use festival.Volunteers.Invariant.{HasRole}
use festival.Volunteers.Listing.{
  active_by_shift_id, entry_before, volunteer_of, no_entry, entry, entry_on, ScheduleEntry, collect,
  VolunteerEntry, missing_role, schedule, list_assignments_for_volunteer,
  list_schedule_for_organization, EntryOutcome,
}
use festival.Volunteers.Records.{
  is_active, VolunteerShiftRecord, VolunteerAssignmentRecord, VolunteerRepository,
}
use festival.Base.{
  map-All, filter-All, All-map, ◌&&◌, ◌==◌, filter, sort, nat_eq, ap, lookup-All, arith, inl, refl,
  lookup, Option-cases, [], inr, ◌∷◌, values, map, Dict, ◌≢◌, All, List, ℕ, ◌≡◌,
}

schedule-total :
    (active_by_shift : Dict ℕ VolunteerAssignmentRecord) (repo : VolunteerRepository)
    → (shifts : List VolunteerShiftRecord) → All (HasRole repo.roles) shifts
    → (entries : List ScheduleEntry) × (schedule active_by_shift repo shifts ≡ inr entries)
      × (map (λ e. e.shift) entries ≡ shifts)
unfolding schedule
schedule-total active_by_shift repo [] h = ([], refl, refl)
schedule-total active_by_shift repo (shift ∷ shifts) (r, h) =
    let (entries, e, m) = schedule-total active_by_shift repo shifts h in
    elim (Option-cases (lookup shift.role_id repo.roles)) [
      | inl n ↦ absurd (ground (arith, n, r))
      | inr (role, n) ↦ (
        record {
          shift = shift;
          role = role;
          assignment = lookup shift.id active_by_shift;
          volunteer = volunteer_of (lookup shift.id active_by_shift) repo;
        }
            ∷ entries,
        ground (arith, n, e),
        ap (◌∷◌ shift) m,
      )
    ]

-- In every repository that calls reach, the schedule of a festival is listed without an error, with
-- one entry for each of its shifts, in their order.
pub list_schedule_for_organization-total :
    (organization_id festival_id : ℕ) {repo : VolunteerRepository}
    → Reach repo
    → (entries : List ScheduleEntry) × (list_schedule_for_organization organization_id festival_id
          repo
        ≡ inr entries)
      × (map (λ e. e.shift) entries
          ≡ filter
              (λ shift.
                shift.organization_id == organization_id && shift.festival_id == festival_id)
              (values repo.shifts))
unfolding list_schedule_for_organization
list_schedule_for_organization-total organization_id festival_id {repo = repo} r =
    schedule-total (active_by_shift_id organization_id (values repo.assignments) []) repo _ (
      All-map (λ s h. h.0) _
        (filter-All (HasRole repo.roles) _ (values repo.shifts) (Reach-IsSchedule r).shifts_linked))

-- No error stands among the outcomes.
abbrev pub IsNoError : EntryOutcome → Type 0
IsNoError outcome = (role_id : ℕ) → outcome ≢ missing_role role_id

collect-total :
    (outcomes : List EntryOutcome)
    → All IsNoError outcomes
    → (entries : List VolunteerEntry) × (collect outcomes ≡ inr entries)
collect-total [] h = ([], refl)
collect-total (no_entry ∷ outcomes) (p, h) = collect-total outcomes h
collect-total (missing_role role_id ∷ outcomes) (p, h) = absurd (p role_id refl)
collect-total (entry e ∷ outcomes) (p, h) =
    let (entries, c) = collect-total outcomes h in (e ∷ entries, rw c refl)

entry_on-IsNoError :
    (organization_id festival_id : ℕ) (repo : VolunteerRepository) (a : VolunteerAssignmentRecord)
    → All (HasRole repo.roles) (values repo.shifts)
    → IsNoError (entry_on organization_id festival_id repo a (lookup a.shift_id repo.shifts))
entry_on-IsNoError organization_id festival_id repo a h role_id e =
    elim (Option-cases (lookup a.shift_id repo.shifts)) [
      | inl n ↦ ground (arith, n, e)
      | inr (shift, n) ↦
          let linked = lookup-All (HasRole repo.roles) a.shift_id shift repo.shifts n h in
          elim (Option-cases (lookup shift.role_id repo.roles)) [
            | inl r ↦ ground (arith, r, linked)
            | inr (role, r) ↦ ground (arith, n, r, e)
          ]
    ]

-- In every repository that calls reach, the assignments of a volunteer are listed without an error.
pub list_assignments_for_volunteer-total :
    (organization_id festival_id volunteer_id : ℕ) {repo : VolunteerRepository}
    → Reach repo
    → (entries : List VolunteerEntry) × (list_assignments_for_volunteer organization_id festival_id
          volunteer_id repo
        ≡ inr (sort entry_before entries))
unfolding list_assignments_for_volunteer
list_assignments_for_volunteer-total organization_id festival_id volunteer_id {repo = repo} r =
    let (entries, c) = collect-total _ (
      map-All IsNoError
        (λ a. entry_on organization_id festival_id repo a (lookup a.shift_id repo.shifts))
        (λ a.
          entry_on-IsNoError organization_id festival_id repo a (Reach-IsSchedule r).shifts_linked)
        (filter
          (λ a.
            a.organization_id == organization_id
            && a.volunteer_id == volunteer_id
            && is_active a.status)
          (values repo.assignments))) in
    (entries, rw (list_assignments_for_volunteer, c))
