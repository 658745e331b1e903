-- ===== src/Waitlist/Interleaved.antt =====
-- Calls of `createOrReactivateEntry` that wait at their `await` while others run:
-- packages/backend/src/waitlist/in-memory-waitlist-repository.ts.
use festival.Waitlist.Membership.{withdraw_entry-Leaves, Leaves, init, active_count}
use festival.Waitlist.Records.{
  ActorType, FestivalClassWaitlistEntry, WaitlistRepository, CreateOrReactivateWaitlistEntryParams,
}
use festival.Base.{
  find?-none, find?, some, is_some, ◌+◌, none, ◌≡◌, not, ◌==◌, ◌≤◌, ◌&&◌, List, count, Option, Bool,
  ℕ, count-append, count-split, Option-cases, inl, inr, [], ◌∷◌, ◌++◌, arith,
}
use festival.Waitlist.Invariant.{IsValid, has_id}
use festival.Waitlist.Repository.{withdraw_entry, is_active_for, create_after, find_active_entry}
use festival.Waitlist.Continued.{Adds, create_after-Adds}

-- A call that waits at its `await`, with what its search has returned.
pub record Call : Type 0 where
  pub params : CreateOrReactivateWaitlistEntryParams
  pub seen : Option FestivalClassWaitlistEntry

abbrev pub is_call_for : ℕ → ℕ → ℕ → Call → Bool
is_call_for o c k call =
    call.params.organization_id == o
    && call.params.festival_class_id == c
    && call.params.child_id == k

-- The repository and the calls that wait, from an empty waitlist on. A call begins with its search
-- while no other call for its child and class waits. Any call that waits may go on, with an
-- identifier for a new entry that no entry has; then it runs to its end.
pub data Interleaved : WaitlistRepository → List Call → Type 0 where
  start : Interleaved init []
  begins :
      {s : WaitlistRepository} {calls : List Call}
      → Interleaved s calls
      → (params : CreateOrReactivateWaitlistEntryParams)
      → count (is_call_for params.organization_id params.festival_class_id params.child_id) calls
        ≡ 0
      → Interleaved s (
          record {
            params = params;
            seen =
                find_active_entry params.organization_id params.festival_class_id params.child_id s;
          }
          ∷ calls)
  goes_on :
      {s : WaitlistRepository} (pre : List Call) (call : Call) (post : List Call)
      → Interleaved s (pre ++ call ∷ post)
      → (entry_id event_id now : ℕ) → count (has_id entry_id) s.entries ≡ 0
      → Interleaved (create_after call.seen call.params entry_id event_id now s).0 (pre ++ post)
  withdraws :
      {s : WaitlistRepository} {calls : List Call}
      → Interleaved s calls
      → (org class child : ℕ) (actor_type : ActorType) (actor_id event_id now : ℕ)
      → Interleaved (withdraw_entry org class child actor_type actor_id event_id now s).0 calls

-- The calls that will make one more entry active.
abbrev is_unseen_for : ℕ → ℕ → ℕ → Call → Bool
is_unseen_for o c k call = is_call_for o c k call && not (is_some call.seen)

unseen_le :
    (o c k : ℕ) (calls : List Call)
    → count (is_unseen_for o c k) calls ≤ count (is_call_for o c k) calls
unseen_le o c k [] = omega arith
unseen_le o c k (call ∷ calls) = ground (arith, unseen_le o c k calls)

record Holds (s : WaitlistRepository) (calls : List Call) : Type 0 where
  unique : (id : ℕ) → count (has_id id) s.entries ≤ 1
  single : (o c k : ℕ) → active_count o c k s + count (is_unseen_for o c k) calls ≤ 1

begins-Holds :
    (params : CreateOrReactivateWaitlistEntryParams) (s : WaitlistRepository) (calls : List Call)
    → Holds s calls
    → count (is_call_for params.organization_id params.festival_class_id params.child_id) calls ≡ 0
    → Holds s (
        record {
          params = params;
          seen =
              find_active_entry params.organization_id params.festival_class_id params.child_id s;
        }
        ∷ calls)
unfolding find_active_entry
begins-Holds params s calls v alone =
    let p : FestivalClassWaitlistEntry → Bool =
      is_active_for params.organization_id params.festival_class_id params.child_id in
    elim (Option-cases (find? p s.entries)) [
      | inr (e, h) ↦ record {
        unique = v.unique;
        single = λ o c k. ground (arith, h, v.single o c k);
      }
      | inl h ↦ record {
        unique = v.unique;
        single = λ o c k. ground (
          arith,
          h,
          v.single o c k,
          alone,
          find?-none p s.entries h,
          unseen_le params.organization_id params.festival_class_id params.child_id calls,
        );
      }
    ]

goes_on-Holds :
    (pre : List Call) (params : CreateOrReactivateWaitlistEntryParams)
    (seen : Option FestivalClassWaitlistEntry) (post : List Call) (entry_id event_id now : ℕ)
    (s : WaitlistRepository)
    → Holds s (pre ++ record { params = params; seen = seen } ∷ post)
    → count (has_id entry_id) s.entries ≡ 0
    → Holds (create_after seen params entry_id event_id now s).0 (pre ++ post)
unfolding create_after
goes_on-Holds pre params (some e) post entry_id event_id now s v fresh = record {
  unique = v.unique;
  single = λ o c k. ground (
    arith,
    v.single o c k,
    count-append (is_unseen_for o c k) pre post,
    count-split (is_unseen_for o c k) pre (record { params = params; seen = some e }) post,
  );
}
goes_on-Holds pre params none post entry_id event_id now s v fresh =
    let a : Adds params s (create_after none params entry_id event_id now s).0 =
      create_after-Adds params entry_id event_id now s v.unique fresh in
    record {
      unique = a.unique;
      single = λ o c k. ground (
        arith,
        v.single o c k,
        a.one_more o c k,
        count-append (is_unseen_for o c k) pre post,
        count-split (is_unseen_for o c k) pre (record { params = params; seen = none }) post,
      );
    }

Holds-IsValid : (s : WaitlistRepository) (calls : List Call) → Holds s calls → IsValid s
Holds-IsValid s calls v = record {
  unique = v.unique;
  single = λ o c k. omega (arith, v.single o c k);
}

withdraws-Holds :
    (org class child : ℕ) (actor_type : ActorType) (actor_id event_id now : ℕ)
    (s : WaitlistRepository) (calls : List Call)
    → Holds s calls
    → Holds (withdraw_entry org class child actor_type actor_id event_id now s).0 calls
withdraws-Holds org class child actor_type actor_id event_id now s calls v =
    let t : WaitlistRepository =
      (withdraw_entry org class child actor_type actor_id event_id now s).0 in
    let l : Leaves org class child s t =
      withdraw_entry-Leaves org class child actor_type actor_id event_id now s
        (Holds-IsValid s calls v) in
    record {
      unique = l.unique;
      single = λ o c k. ground (arith, v.single o c k, l.others o c k, l.gone);
    }

Interleaved-Holds :
    {s : WaitlistRepository} {calls : List Call} → Interleaved s calls → Holds s calls
unfolding init
Interleaved-Holds start = record { unique = λ id. omega arith; single = λ o c k. omega arith }
Interleaved-Holds (begins {s = s} {calls = calls} r params alone) =
    begins-Holds params s calls (Interleaved-Holds r) alone
Interleaved-Holds (goes_on {s = s} pre call post r entry_id event_id now fresh) =
    goes_on-Holds pre call.params call.seen post entry_id event_id now s (Interleaved-Holds r) fresh
Interleaved-Holds
      (withdraws {s = s} {calls = calls} r org class child actor_type actor_id event_id now) =
    withdraws-Holds org class child actor_type actor_id event_id now s calls (Interleaved-Holds r)

-- Whatever calls of the two writing methods run on an empty waitlist, those of `createOrReactivateEntry`
-- waiting at their `await` while any others run: identifiers are distinct, and a child is active at most once
-- on the waitlist of a class, if new entries are given new identifiers and no call for a child and class
-- begins while another one for the same child and class waits.
pub Interleaved-IsValid :
    {s : WaitlistRepository} {calls : List Call} → Interleaved s calls → IsValid s
Interleaved-IsValid {s} {calls} r = Holds-IsValid s calls (Interleaved-Holds r)
