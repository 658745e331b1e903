-- ===== src/Waitlist/Continued.antt =====
-- What `createOrReactivateEntry` of packages/backend/src/waitlist/in-memory-waitlist-repository.ts
-- writes behind its `await`, where its search has found no active entry.
use festival.Waitlist.Membership.{active_count}
use festival.Waitlist.Records.{
  FestivalClassWaitlistEntry, WaitlistRepository, CreateOrReactivateWaitlistEntryParams,
}
use festival.Base.{
  filter, if◌then◌else◌, ◌+◌, true, none, ◌≡◌, Splits, ◌==◌, ◌≤◌, ◌&&◌, count, Bool, ℕ,
  count-append, Option-cases, inl, inr, [], ◌∷◌, arith,
}
use festival.Waitlist.Invariant.{latest-Splits, count-assign, has_id}
use festival.Waitlist.Repository.{
  latest, reactivate, new_entry, is_withdrawn_for, is_active_for, find_withdrawn_entry, rejoin,
  join, create_after,
}

-- One more entry of the child is active, and identifiers are distinct still.
pub record Adds (params : CreateOrReactivateWaitlistEntryParams) (s t : WaitlistRepository)
    : Type 0 where
  pub unique : (id : ℕ) → count (has_id id) t.entries ≤ 1
  pub one_more :
      (o c k : ℕ)
      → active_count o c k t
        ≡ active_count o c k s
          + (if params.organization_id == o && params.festival_class_id == c && params.child_id == k
              then 1
              else 0)

rejoin-Adds :
    (params : CreateOrReactivateWaitlistEntryParams) (e : FestivalClassWaitlistEntry)
    (event_id now : ℕ) (s : WaitlistRepository)
    → ((id : ℕ) → count (has_id id) s.entries ≤ 1)
    → Splits e s.entries
    → is_withdrawn_for params.organization_id params.festival_class_id params.child_id e ≡ true
    → Adds params s (rejoin params e event_id now s).0
unfolding rejoin is_active_for is_withdrawn_for
rejoin-Adds params e event_id now s unique split w = record {
  unique = λ id.
      ground (
        arith,
        unique id,
        count-assign (has_id id) (reactivate now) e s.entries (unique e.id) split,
      );
  one_more = λ o c k. ground (
    arith,
    w,
    count-assign (is_active_for o c k) (reactivate now) e s.entries (unique e.id) split,
  );
}

join-Adds :
    (params : CreateOrReactivateWaitlistEntryParams) (entry_id event_id now : ℕ)
    (s : WaitlistRepository)
    → ((id : ℕ) → count (has_id id) s.entries ≤ 1)
    → count (has_id entry_id) s.entries ≡ 0
    → Adds params s (join params entry_id event_id now s).0
unfolding join is_active_for
join-Adds params entry_id event_id now s unique fresh =
    let e : FestivalClassWaitlistEntry = new_entry params entry_id now in
    record {
      unique = λ id. ground (arith, unique id, fresh, count-append (has_id id) s.entries (e ∷ []));
      one_more = λ o c k. ground (arith, count-append (is_active_for o c k) s.entries (e ∷ []));
    }

pub create_after-Adds :
    (params : CreateOrReactivateWaitlistEntryParams) (entry_id event_id now : ℕ)
    (s : WaitlistRepository)
    → ((id : ℕ) → count (has_id id) s.entries ≤ 1)
    → count (has_id entry_id) s.entries ≡ 0
    → Adds params s (create_after none params entry_id event_id now s).0
unfolding create_after find_withdrawn_entry
create_after-Adds params entry_id event_id now s unique fresh =
    let q : FestivalClassWaitlistEntry → Bool =
      is_withdrawn_for params.organization_id params.festival_class_id params.child_id in
    elim (Option-cases (latest (filter q s.entries))) [
      | inr (e, w) ↦
          let (split, withdrawn_e) = latest-Splits q e s.entries w in
          rw (w, create_after) (rejoin-Adds params e event_id now s unique split withdrawn_e)
      | inl w ↦ rw (w, create_after) (join-Adds params entry_id event_id now s unique fresh)
    ]
