-- ===== src/Waitlist/Membership.antt =====
-- The membership of a child on the waitlist of a class under the two writing methods of
-- packages/backend/src/waitlist/in-memory-waitlist-repository.ts.
use festival.Waitlist.Invariant.{
  join-Joins, rejoin-Joins, latest-Splits, count-assign, Joins, IsValid, has_id,
}
use festival.Base.{
  count-split, find?-none, Option-cases, ap, find?-Splits, ℕ, ◌≤◌, ◌≡◌, refl, inl, inr, true, false,
  ◌&&◌, some, List, [], arith, ◌==◌, count, filter, find?, Splits,
}
use festival.Waitlist.Records.{
  ActorType, CreateOrReactivateWaitlistEntryParams, FestivalClassWaitlistEntry, WaitlistRepository,
}
use festival.Waitlist.Repository.{
  create_after, withdraw, is_withdrawn_for, latest, find_withdrawn_entry, is_active_for,
  find_active_entry, withdraw_active, create_or_reactivate_entry, withdraw_entry,
}

abbrev pub active_count : ℕ → ℕ → ℕ → WaitlistRepository → ℕ
active_count o c k repo = count (is_active_for o c k) repo.entries

active_there :
    (o c k : ℕ) (e : FestivalClassWaitlistEntry) (xs : List FestivalClassWaitlistEntry)
    → find? (is_active_for o c k) xs ≡ some e
    → 1 ≤ count (is_active_for o c k) xs
active_there o c k e xs h =
    let ((pre, post, eq), q) = find?-Splits (is_active_for o c k) xs h in
    ground
      (arith, ap (count (is_active_for o c k)) eq, count-split (is_active_for o c k) pre e post)

module _ (params : CreateOrReactivateWaitlistEntryParams) (entry_id event_id now : ℕ)
    (s : WaitlistRepository) (v : IsValid s) (fresh : count (has_id entry_id) s.entries ≡ 0) where
  already-Joins :
      (e : FestivalClassWaitlistEntry)
      → find?
          (is_active_for params.organization_id params.festival_class_id params.child_id)
          s.entries
        ≡ some e
      → Joins params s s
  already-Joins e h = record {
    unique = v.unique;
    there = omega (
      arith,
      v.single params.organization_id params.festival_class_id params.child_id,
      active_there params.organization_id params.festival_class_id params.child_id e s.entries h,
    );
    others = λ o c k h. refl;
  }

  -- A call of `createOrReactivateEntry` that no other call interrupts at its `await`, given an identifier that
  -- no entry has, on a waitlist where identifiers are distinct and a child is active once at most on the
  -- waitlist of a class: it leaves the child active just once on the waitlist of the class, keeps identifiers
  -- distinct, and changes who is active nowhere else.
  pub create_or_reactivate_entry-Joins :
      Joins params s (create_or_reactivate_entry params entry_id event_id now s).0
  unfolding create_or_reactivate_entry create_after find_active_entry find_withdrawn_entry
  create_or_reactivate_entry-Joins =
      elim (Option-cases (
        find? (is_active_for params.organization_id params.festival_class_id params.child_id)
          s.entries)) [
            | inr (e, h) ↦ rw (h, create_or_reactivate_entry, create_after) (already-Joins e h)
            | inl h ↦
                let zero_active : active_count params.organization_id params.festival_class_id
                      params.child_id s
                    ≡ 0 =
                  find?-none
                    (is_active_for params.organization_id params.festival_class_id params.child_id)
                    s.entries h in
                elim (Option-cases (
                  latest (
                    filter
                      (is_withdrawn_for params.organization_id params.festival_class_id
                        params.child_id)
                      s.entries))) [
                        | inr (e, w) ↦
                            let (split, q) =
                              latest-Splits
                                (is_withdrawn_for params.organization_id params.festival_class_id
                                  params.child_id)
                                e s.entries w in
                            rw (h, w, create_or_reactivate_entry, create_after)
                              (rejoin-Joins params e event_id now s v zero_active split q)
                        | inl w ↦
                            rw (h, w, create_or_reactivate_entry, create_after)
                              (join-Joins params entry_id event_id now s v zero_active fresh)
                      ]
          ]

Joins-IsValid :
    (params : CreateOrReactivateWaitlistEntryParams) (s t : WaitlistRepository)
    → IsValid s
    → Joins params s t
    → IsValid t
Joins-IsValid params s t v j = record {
  unique = j.unique;
  single = λ o c k. ground (arith, v.single o c k, j.others o c k, j.there);
}

-- So a valid waitlist stays valid: identifiers are distinct, and no child is active twice.
pub create_or_reactivate_entry-IsValid :
    (params : CreateOrReactivateWaitlistEntryParams) (entry_id event_id now : ℕ)
    (s : WaitlistRepository)
    → IsValid s
    → count (has_id entry_id) s.entries ≡ 0
    → IsValid (create_or_reactivate_entry params entry_id event_id now s).0
create_or_reactivate_entry-IsValid params entry_id event_id now s v fresh =
    Joins-IsValid params s (create_or_reactivate_entry params entry_id event_id now s).0 v
      (create_or_reactivate_entry-Joins params entry_id event_id now s v fresh)

-- After `withdrawEntry` the child is not active, and no other place of the list changes.
pub record Leaves (org class child : ℕ) (s t : WaitlistRepository) : Type 0 where
  pub unique : (id : ℕ) → count (has_id id) t.entries ≤ 1
  pub gone : active_count org class child t ≡ 0
  pub others :
      (o c k : ℕ)
      → ((o == org) && (c == class) && (k == child)) ≡ false
      → active_count o c k t ≡ active_count o c k s

withdraw_active-Leaves :
    (org class child : ℕ) (e : FestivalClassWaitlistEntry) (actor_type : ActorType)
    (actor_id event_id now : ℕ) (s : WaitlistRepository)
    → IsValid s
    → Splits e s.entries
    → is_active_for org class child e ≡ true
    → Leaves org class child s (withdraw_active org class e actor_type actor_id event_id now s).0
unfolding withdraw_active is_active_for
withdraw_active-Leaves org class child e actor_type actor_id event_id now s v split w = record {
  unique = λ id. ground (
    arith,
    v.unique id,
    count-assign (has_id id) (withdraw now) e s.entries (v.unique e.id) split,
  );
  gone = ground (
    arith,
    v.single org class child,
    count-assign (is_active_for org class child) (withdraw now) e s.entries (v.unique e.id) split,
  );
  others = λ o c k h.
      ground (
        arith,
        count-assign (is_active_for o c k) (withdraw now) e s.entries (v.unique e.id) split,
      );
}

-- `withdrawEntry`, on a waitlist where identifiers are distinct and a child is active once at most
-- on the waitlist of a class, leaves the child inactive on the waitlist of the class, keeps identifiers
-- distinct, and changes who is active nowhere else.
pub withdraw_entry-Leaves :
    (org class child : ℕ) (actor_type : ActorType) (actor_id event_id now : ℕ)
    (s : WaitlistRepository)
    → IsValid s
    → Leaves org class child s (withdraw_entry org class child actor_type actor_id event_id now s).0
unfolding withdraw_entry find_active_entry
withdraw_entry-Leaves org class child actor_type actor_id event_id now s v =
    elim (Option-cases (find? (is_active_for org class child) s.entries)) [
      | inr (e, h) ↦
          let (split, q) = find?-Splits (is_active_for org class child) s.entries h in
          rw (h, withdraw_entry)
            (withdraw_active-Leaves org class child e actor_type actor_id event_id now s v split q)
      | inl h ↦
          let zero_active : active_count org class child s ≡ 0 =
            find?-none (is_active_for org class child) s.entries h in
          let same : Leaves org class child s s = record {
            unique = v.unique;
            gone = zero_active;
            others = λ o c k h. refl;
          } in
          elim (Option-cases (find_withdrawn_entry org class child s)) [
            | inl w ↦ rw (h, w, withdraw_entry) same
            | inr (e, w) ↦ rw (h, w, withdraw_entry) same
          ]
    ]

-- A call that ends before the next one begins. An entry's new identifier is one that no entry has.
-- `withdrawEntry` has no `await`; `createOrReactivateEntry` has one.
pub data Step (s : WaitlistRepository) : WaitlistRepository → Type 0 where
  creates :
      (params : CreateOrReactivateWaitlistEntryParams) (entry_id event_id now : ℕ)
      → count (has_id entry_id) s.entries ≡ 0
      → Step s (create_or_reactivate_entry params entry_id event_id now s).0
  withdraws :
      (org class child : ℕ) (actor_type : ActorType) (actor_id event_id now : ℕ)
      → Step s (withdraw_entry org class child actor_type actor_id event_id now s).0

pub data Reach (s : WaitlistRepository) : WaitlistRepository → Type 0 where
  here : Reach s s
  next : {t u : WaitlistRepository} → Reach s t → Step t u → Reach s u

unfoldable pub init : WaitlistRepository
init = record { entries = []; events = [] }

init-IsValid : IsValid init
unfolding init
init-IsValid = record { unique = λ id. omega arith; single = λ o c k. omega arith }

Step-IsValid : {s t : WaitlistRepository} → IsValid s → Step s t → IsValid t
Step-IsValid {s} v (creates params entry_id event_id now fresh) =
    create_or_reactivate_entry-IsValid params entry_id event_id now s v fresh
Step-IsValid {s} v (withdraws org class child actor_type actor_id event_id now) =
    let t : WaitlistRepository =
      (withdraw_entry org class child actor_type actor_id event_id now s).0 in
    let l : Leaves org class child s t =
      withdraw_entry-Leaves org class child actor_type actor_id event_id now s v in
    record {
      unique = l.unique;
      single = λ o c k. ground (arith, v.single o c k, l.others o c k, l.gone);
    }

-- After any sequence of calls of the two writing methods on an empty waitlist, of which each ends before
-- the next one begins and new entries are given new identifiers, identifiers are distinct and a child is
-- active at most once on the waitlist of a class.
pub Reach_single : {t : WaitlistRepository} → Reach init t → IsValid t
Reach_single here = init-IsValid
Reach_single (next r st) = Step-IsValid (Reach_single r) st
