-- ===== src/Waitlist/Idempotence.antt =====
-- Repeated calls, and the history of events, of
-- packages/backend/src/waitlist/in-memory-waitlist-repository.ts.
use festival.Waitlist.Membership.{init, Reach, here, next, creates, withdraws, Reach_single}
use festival.Waitlist.Invariant.{
  withdrawn_only, latest-Splits, active_only, count-assign, IsValid, assign-split, has_id,
}
use festival.Base.{
  find?-Splits, count-append, Option-cases, not, find?-none-prefix, find?-middle, ap, count-split,
  ℕ, ◌+◌, ◌≤◌, ◌≡◌, refl, inl, inr, Bool, true, false, ◌&&◌, none, some, List, [], ◌∷◌, ◌++◌, arith,
  ◌==◌, count, filter, find?, Splits,
}
use festival.Waitlist.Records.{
  joined_event, rejoined_event, no_action, ActorType, withdrawn_event, FestivalClassWaitlistEvent,
  CreateOrReactivateWaitlistEntryParams, WaitlistEventType, is_active, FestivalClassWaitlistEntry,
  WaitlistRepository,
}
use festival.Waitlist.Repository.{
  create_after, withdraw, is_withdrawn_for, reactivate, new_entry, latest, is_active_for,
  parent_event, find_withdrawn_entry, join, rejoin, find_active_entry, withdraw_active, assign,
  create_or_reactivate_entry, withdraw_entry,
}

-- Where the first entry of an assignment's identifier is not active for a child, and the others
-- are not either, the entry that it makes active is the one that is found.
find?-assign :
    (p : FestivalClassWaitlistEntry → Bool)
    (f : FestivalClassWaitlistEntry → FestivalClassWaitlistEntry) (x : FestivalClassWaitlistEntry)
    (xs : List FestivalClassWaitlistEntry)
    → count (has_id x.id) xs ≤ 1
    → Splits x xs
    → find? p xs ≡ none
    → p (f x) ≡ true
    → find? p (assign x.id f xs) ≡ some (f x)
find?-assign p f x xs u (pre, post, e) h q =
    let once : count (has_id x.id) pre ≡ 0 =
      ground (arith, count-split (has_id x.id) pre x post, ap (count (has_id x.id)) e) in
    let moved : assign x.id f xs ≡ pre ++ f x ∷ post = rw e (assign-split f pre x post once) in
    rw moved (find?-middle p pre (f x) post (find?-none-prefix p pre (x ∷ post) (rw e at h)) q)

module _ (params : CreateOrReactivateWaitlistEntryParams) (entry_id event_id now : ℕ)
    (s : WaitlistRepository) (v : IsValid s) where
  -- The entry that `createOrReactivateEntry` returns is the active one that it leaves.
  find_active_entry-create :
      let (t, r) = create_or_reactivate_entry params entry_id event_id now s in
      find?
        (is_active_for params.organization_id params.festival_class_id params.child_id)
        t.entries
      ≡ some r.entry
  unfolding create_or_reactivate_entry create_after find_active_entry find_withdrawn_entry rejoin
      join
  find_active_entry-create =
      let p : FestivalClassWaitlistEntry → Bool =
        is_active_for params.organization_id params.festival_class_id params.child_id in
      elim (Option-cases (find? p s.entries)) [
        | inr (e, h) ↦ rw (h, create_or_reactivate_entry, create_after) h
        | inl h ↦
            elim (Option-cases (
              latest (
                filter
                  (is_withdrawn_for params.organization_id params.festival_class_id params.child_id)
                  s.entries))) [
                    | inr (e, w) ↦
                        let (split, q) =
                          latest-Splits
                            (is_withdrawn_for params.organization_id params.festival_class_id
                              params.child_id)
                            e s.entries w in
                        rw (h, w, create_or_reactivate_entry, create_after)
                          (find?-assign p (reactivate now) e s.entries (v.unique e.id) split h (
                            unfold is_active_for in
                            ground (
                              arith,
                              withdrawn_only params.organization_id params.festival_class_id
                                  params.child_id e q,
                            )))
                    | inl w ↦
                        rw (h, w, create_or_reactivate_entry, create_after)
                          (find?-middle p s.entries (new_entry params entry_id now) [] h
                            (unfold is_active_for in ground arith))
                  ]
      ]

  -- `createOrReactivateEntry` is idempotent on a waitlist where identifiers are distinct and a child is active
  -- once at most on the waitlist of a class: called again, after the first call has ended, for the same
  -- organization, class and child, with any other identifiers, parent, festival and time, it writes nothing,
  -- and returns the entry of the first call as one that was there already.
  pub create_or_reactivate_entry_again :
      (again : CreateOrReactivateWaitlistEntryParams) (entry_id' event_id' later : ℕ)
      → again.organization_id ≡ params.organization_id
      → again.festival_class_id ≡ params.festival_class_id
      → again.child_id ≡ params.child_id
      → let (t, r) = create_or_reactivate_entry params entry_id event_id now s in
        create_or_reactivate_entry again entry_id' event_id' later t
        ≡ (t, record { entry = r.entry; already_joined = true; action = no_action })
  unfolding create_or_reactivate_entry create_after find_active_entry
  create_or_reactivate_entry_again again entry_id' event_id' later o c k =
      let (t, r) = create_or_reactivate_entry params entry_id event_id now s in
      let found : find? (is_active_for again.organization_id again.festival_class_id again.child_id)
            t.entries
          ≡ some r.entry =
        rw (o, c, k) find_active_entry-create in
      rw (found, create_or_reactivate_entry, create_after) refl

-- The history of one entry: it has joined as often as it was withdrawn, and once more while it is active.
abbrev is_withdrawal : WaitlistEventType → Bool
is_withdrawal withdrawn_event = true
is_withdrawal _ = false

abbrev joins : ℕ → FestivalClassWaitlistEvent → Bool
joins id ev = ev.waitlist_entry_id == id && not (is_withdrawal ev.event_type)

abbrev leaves : ℕ → FestivalClassWaitlistEvent → Bool
leaves id ev = ev.waitlist_entry_id == id && is_withdrawal ev.event_type

abbrev active_with : ℕ → FestivalClassWaitlistEntry → Bool
active_with id e = e.id == id && is_active e.status

abbrev pub IsBalanced : WaitlistRepository → Type 0
IsBalanced repo =
    (id : ℕ)
    → count (joins id) repo.events
      ≡ count (leaves id) repo.events + count (active_with id) repo.entries

join-IsBalanced :
    (params : CreateOrReactivateWaitlistEntryParams) (entry_id event_id now : ℕ)
    (s : WaitlistRepository)
    → IsBalanced s
    → IsBalanced (join params entry_id event_id now s).0
unfolding join
join-IsBalanced params entry_id event_id now s b id =
    let ev : FestivalClassWaitlistEvent = parent_event params entry_id joined_event event_id now in
    ground (
      arith,
      b id,
      count-append (joins id) s.events (ev ∷ []),
      count-append (leaves id) s.events (ev ∷ []),
      count-append (active_with id) s.entries (new_entry params entry_id now ∷ []),
    )

rejoin-IsBalanced :
    (params : CreateOrReactivateWaitlistEntryParams) (e : FestivalClassWaitlistEntry)
    (event_id now : ℕ) (s : WaitlistRepository)
    → IsValid s
    → IsBalanced s
    → Splits e s.entries
    → is_active e.status ≡ false
    → IsBalanced (rejoin params e event_id now s).0
unfolding rejoin
rejoin-IsBalanced params e event_id now s v b split w id =
    let ev : FestivalClassWaitlistEvent = parent_event params e.id rejoined_event event_id now in
    ground (
      arith,
      b id,
      count-append (joins id) s.events (ev ∷ []),
      count-append (leaves id) s.events (ev ∷ []),
      count-assign (active_with id) (reactivate now) e s.entries (v.unique e.id) split,
    )

withdraw_active-IsBalanced :
    (org class : ℕ) (e : FestivalClassWaitlistEntry) (actor_type : ActorType)
    (actor_id event_id now : ℕ) (s : WaitlistRepository)
    → IsValid s
    → IsBalanced s
    → Splits e s.entries
    → is_active e.status ≡ true
    → IsBalanced (withdraw_active org class e actor_type actor_id event_id now s).0
unfolding withdraw_active
withdraw_active-IsBalanced org class e actor_type actor_id event_id now s v b split w id =
    let ev : FestivalClassWaitlistEvent = record {
      id = event_id;
      organization_id = org;
      festival_id = none;
      festival_class_id = class;
      waitlist_entry_id = e.id;
      event_type = withdrawn_event;
      actor_type = actor_type;
      actor_id = actor_id;
      created_at = now;
    } in
    ground (
      arith,
      b id,
      count-append (joins id) s.events (ev ∷ []),
      count-append (leaves id) s.events (ev ∷ []),
      count-assign (active_with id) (withdraw now) e s.entries (v.unique e.id) split,
    )

create-IsBalanced :
    (params : CreateOrReactivateWaitlistEntryParams) (entry_id event_id now : ℕ)
    (s : WaitlistRepository)
    → IsValid s
    → IsBalanced s
    → IsBalanced (create_or_reactivate_entry params entry_id event_id now s).0
unfolding create_or_reactivate_entry create_after find_active_entry find_withdrawn_entry
create-IsBalanced params entry_id event_id now s v b =
    let p : FestivalClassWaitlistEntry → Bool =
      is_active_for params.organization_id params.festival_class_id params.child_id in
    elim (Option-cases (find? p s.entries)) [
      | inr (e, h) ↦ rw (h, create_or_reactivate_entry, create_after) b
      | inl h ↦
          elim (Option-cases (
            latest (
              filter
                (is_withdrawn_for params.organization_id params.festival_class_id params.child_id)
                s.entries))) [
                  | inr (e, w) ↦
                      let (split, q) =
                        latest-Splits
                          (is_withdrawn_for params.organization_id params.festival_class_id
                            params.child_id)
                          e s.entries w in
                      rw (h, w, create_or_reactivate_entry, create_after)
                        (rejoin-IsBalanced params e event_id now s v b split
                          (withdrawn_only params.organization_id params.festival_class_id
                            params.child_id e q).1)
                  | inl w ↦
                      rw (h, w, create_or_reactivate_entry, create_after)
                        (join-IsBalanced params entry_id event_id now s b)
                ]
    ]

withdraw-IsBalanced :
    (org class child : ℕ) (actor_type : ActorType) (actor_id event_id now : ℕ)
    (s : WaitlistRepository)
    → IsValid s
    → IsBalanced s
    → IsBalanced (withdraw_entry org class child actor_type actor_id event_id now s).0
unfolding withdraw_entry find_active_entry
withdraw-IsBalanced org class child actor_type actor_id event_id now s v b =
    elim (Option-cases (find? (is_active_for org class child) s.entries)) [
      | inr (e, h) ↦
          let (split, q) = find?-Splits (is_active_for org class child) s.entries h in
          rw (h, withdraw_entry)
            (withdraw_active-IsBalanced org class e actor_type actor_id event_id now s v b split
              (active_only org class child e q).1)
      | inl h ↦ elim (Option-cases (find_withdrawn_entry org class child s)) [
        | inl w ↦ rw (h, w, withdraw_entry) b
        | inr (e, w) ↦ rw (h, w, withdraw_entry) b
      ]
    ]

-- After any sequence of calls on an empty waitlist, of which each ends before the next one begins
-- and new entries are given new identifiers, the events of an entry tell its state: the "joined" and "rejoined" events of an identifier are as many as its "withdrawn" events, and one more exactly
-- where the entry is active.
pub Reach-IsBalanced : {t : WaitlistRepository} → Reach init t → IsBalanced t
unfolding init
Reach-IsBalanced here = λ id. refl
Reach-IsBalanced (next {t = t} r (creates params entry_id event_id now fresh)) =
    create-IsBalanced params entry_id event_id now t (Reach_single r) (Reach-IsBalanced r)
Reach-IsBalanced (next {t = t} r (withdraws org class child actor_type actor_id event_id now)) =
    withdraw-IsBalanced org class child actor_type actor_id event_id now t (Reach_single r)
      (Reach-IsBalanced r)
