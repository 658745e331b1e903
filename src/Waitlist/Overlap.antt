-- ===== src/Waitlist/Overlap.antt =====
-- Two calls of `createOrReactivateEntry` for one child that overlap at the `await` of
-- packages/backend/src/waitlist/in-memory-waitlist-repository.ts.
use festival.Waitlist.Membership.{active_count}
use festival.Waitlist.Records.{WaitlistRepository, CreateOrReactivateWaitlistEntryParams}
use festival.Base.{subst, none, ◌≡◌, ◌≤◌, count, ℕ, find?-none, arith}
use festival.Waitlist.Invariant.{has_id}
use festival.Waitlist.Continued.{Adds, create_after-Adds}
use festival.Waitlist.Repository.{is_active_for, create_after, find_active_entry}

-- Two calls for one child and class that overlap: where the identifiers of the entries are distinct, new
-- entries are given new ones, no entry of the child is active, and the second call searches before the first
-- one goes on behind its `await`, both go on with no active entry found. The child is then active twice on
-- the waitlist of the class.
pub overlapping_calls_twice :
    (params : CreateOrReactivateWaitlistEntryParams) (entry_id event_id now : ℕ)
    (entry_id' event_id' now' : ℕ) (s t : WaitlistRepository)
    → ((id : ℕ) → count (has_id id) s.entries ≤ 1)
    → find_active_entry params.organization_id params.festival_class_id params.child_id s ≡ none
    → count (has_id entry_id) s.entries ≡ 0
    → (create_after
        (find_active_entry params.organization_id params.festival_class_id params.child_id s)
        params
        entry_id
        event_id
        now
        s).0
      ≡ t
    → count (has_id entry_id') t.entries ≡ 0
    → active_count params.organization_id params.festival_class_id params.child_id
        (create_after
          (find_active_entry params.organization_id params.festival_class_id params.child_id s)
          params
          entry_id'
          event_id'
          now'
          t).0
      ≡ 2
unfolding find_active_entry
overlapping_calls_twice params entry_id event_id now entry_id' event_id' now' s t unique h fresh e
      fresh' =
    let a : Adds params s t =
      subst (Adds params s) (rw h at e)
        (create_after-Adds params entry_id event_id now s unique fresh) in
    let b : Adds params t (create_after none params entry_id' event_id' now' t).0 =
      create_after-Adds params entry_id' event_id' now' t a.unique fresh' in
    rw h (
      ground (
        arith,
        a.one_more params.organization_id params.festival_class_id params.child_id,
        b.one_more params.organization_id params.festival_class_id params.child_id,
        find?-none (is_active_for params.organization_id params.festival_class_id params.child_id)
            s.entries h,
      ))
