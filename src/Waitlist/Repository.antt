-- ===== src/Waitlist/Repository.antt =====
-- `class InMemoryWaitlistRepository` of
-- packages/backend/src/waitlist/in-memory-waitlist-repository.ts. Identifiers are only compared, so
-- they are naturals, and a time is its milliseconds. Each method takes the identifiers that
-- `randomUUID` returns and the time of its call as arguments.
use festival.Waitlist.Records.{
  joined, rejoined, joined_event, parent, no_action, withdrawn_event, rejoined_event, is_active,
  active, FestivalClassWaitlistEvent, WaitlistEventType, WithdrawWaitlistEntryResult,
  CreateOrReactivateWaitlistEntryResult, withdrawn, ActorType, WaitlistRepository,
  CreateOrReactivateWaitlistEntryParams, FestivalClassWaitlistEntry,
}
use festival.Base.{
  sort, not, ℕ, Bool, true, false, ◌&&◌, Option, none, some, List, [], ◌∷◌, ◌++◌, ◌==◌, ltb, leb,
  filter, find?, if◌then◌else◌,
}

unfoldable pub find_entry_by_id : ℕ → ℕ → WaitlistRepository → Option FestivalClassWaitlistEntry
find_entry_by_id organization_id waitlist_entry_id repo =
    find? (λ entry. entry.organization_id == organization_id && entry.id == waitlist_entry_id)
      repo.entries

-- The entry is of this organization, class and child.
unfoldable pub is_for : ℕ → ℕ → ℕ → FestivalClassWaitlistEntry → Bool
is_for organization_id class_id child_id entry =
    entry.organization_id == organization_id
    && entry.festival_class_id == class_id
    && entry.child_id == child_id

unfoldable pub is_active_for : ℕ → ℕ → ℕ → FestivalClassWaitlistEntry → Bool
unfolding is_for
is_active_for organization_id class_id child_id entry =
    is_for organization_id class_id child_id entry && is_active entry.status

unfoldable pub is_withdrawn_for : ℕ → ℕ → ℕ → FestivalClassWaitlistEntry → Bool
unfolding is_for
is_withdrawn_for organization_id class_id child_id entry =
    is_for organization_id class_id child_id entry && not (is_active entry.status)

unfoldable pub find_active_entry :
    ℕ → ℕ → ℕ → WaitlistRepository → Option FestivalClassWaitlistEntry
find_active_entry organization_id class_id child_id repo =
    find? (is_active_for organization_id class_id child_id) repo.entries

-- The first of the entries with the latest `updatedAt`: a stable sort, newest first, and `[0]`.
unfoldable pub latest : List FestivalClassWaitlistEntry → Option FestivalClassWaitlistEntry
latest [] = none
latest (x ∷ xs) = elim (latest xs) [
  | none ↦ some x
  | some y ↦ some (if ltb x.updated_at y.updated_at then y else x)
]

unfoldable pub find_withdrawn_entry :
    ℕ → ℕ → ℕ → WaitlistRepository → Option FestivalClassWaitlistEntry
unfolding latest
find_withdrawn_entry organization_id class_id child_id repo =
    latest (filter (is_withdrawn_for organization_id class_id child_id) repo.entries)

-- An assignment to the fields of the object that is found, which the array holds: the first
-- entry with its identifier.
unfoldable pub assign :
    ℕ
    → (FestivalClassWaitlistEntry → FestivalClassWaitlistEntry)
    → List FestivalClassWaitlistEntry
    → List FestivalClassWaitlistEntry
assign id f [] = []
assign id f (x ∷ xs) = let rest = assign id f xs in if x.id == id then f x ∷ xs else x ∷ rest

abbrev pub reactivate : ℕ → FestivalClassWaitlistEntry → FestivalClassWaitlistEntry
reactivate now e = record e {
  status = active;
  withdrawn_at = none;
  joined_at = now;
  updated_at = now;
}

abbrev pub withdraw : ℕ → FestivalClassWaitlistEntry → FestivalClassWaitlistEntry
withdraw now e = record e { status = withdrawn; withdrawn_at = some now; updated_at = now }

-- The event that a parent's call writes.
abbrev pub parent_event :
    CreateOrReactivateWaitlistEntryParams
    → ℕ
    → WaitlistEventType
    → ℕ
    → ℕ
    → FestivalClassWaitlistEvent
parent_event params entry_id event_type event_id now = record {
  id = event_id;
  organization_id = params.organization_id;
  festival_id = some params.festival_id;
  festival_class_id = params.festival_class_id;
  waitlist_entry_id = entry_id;
  event_type = event_type;
  actor_type = parent;
  actor_id = params.parent_customer_id;
  created_at = now;
}

unfoldable pub new_entry :
    CreateOrReactivateWaitlistEntryParams → ℕ → ℕ → FestivalClassWaitlistEntry
new_entry params entry_id now = record {
  id = entry_id;
  organization_id = params.organization_id;
  festival_id = params.festival_id;
  festival_class_id = params.festival_class_id;
  parent_customer_id = params.parent_customer_id;
  child_id = params.child_id;
  status = active;
  joined_at = now;
  withdrawn_at = none;
  created_at = now;
  updated_at = now;
}

-- The two ends of `createOrReactivateEntry` where no entry is active.
unfoldable pub rejoin :
    CreateOrReactivateWaitlistEntryParams
    → FestivalClassWaitlistEntry
    → ℕ
    → ℕ
    → WaitlistRepository
    → WaitlistRepository × CreateOrReactivateWaitlistEntryResult
unfolding assign
rejoin params entry event_id now repo = (
  record {
    entries = assign entry.id (reactivate now) repo.entries;
    events = repo.events ++ parent_event params entry.id rejoined_event event_id now ∷ [];
  },
  record { entry = reactivate now entry; already_joined = false; action = rejoined },
)

unfoldable pub join :
    CreateOrReactivateWaitlistEntryParams
    → ℕ
    → ℕ
    → ℕ
    → WaitlistRepository
    → WaitlistRepository × CreateOrReactivateWaitlistEntryResult
unfolding new_entry
join params entry_id event_id now repo = (
  record {
    entries = repo.entries ++ new_entry params entry_id now ∷ [];
    events = repo.events ++ parent_event params entry_id joined_event event_id now ∷ [];
  },
  record { entry = new_entry params entry_id now; already_joined = false; action = joined },
)

-- `createOrReactivateEntry` from behind `await this.findActiveEntry(...)` to its end, given the
-- entry that the search before the `await` has returned. It waits no more.
unfoldable pub create_after :
    Option FestivalClassWaitlistEntry
    → CreateOrReactivateWaitlistEntryParams
    → ℕ
    → ℕ
    → ℕ
    → WaitlistRepository
    → WaitlistRepository × CreateOrReactivateWaitlistEntryResult
create_after (some e) params entry_id event_id now repo =
    (repo, record { entry = e; already_joined = true; action = no_action })
create_after none params entry_id event_id now repo =
    elim (find_withdrawn_entry params.organization_id params.festival_class_id params.child_id
      repo) [
        | some e ↦ rejoin params e event_id now repo
        | none ↦ join params entry_id event_id now repo
      ]

-- A call that no other writing call interrupts at its `await`: the search sees the repository that
-- the rest of the call works on.
unfoldable pub create_or_reactivate_entry :
    CreateOrReactivateWaitlistEntryParams
    → ℕ
    → ℕ
    → ℕ
    → WaitlistRepository
    → WaitlistRepository × CreateOrReactivateWaitlistEntryResult
unfolding create_after
create_or_reactivate_entry params entry_id event_id now repo =
    create_after
      (find_active_entry params.organization_id params.festival_class_id params.child_id repo)
      params entry_id event_id now repo

unfoldable pub withdraw_active :
    ℕ
    → ℕ
    → FestivalClassWaitlistEntry
    → ActorType
    → ℕ
    → ℕ
    → ℕ
    → WaitlistRepository
    → WaitlistRepository × WithdrawWaitlistEntryResult
unfolding assign
withdraw_active organization_id class_id e actor_type actor_id event_id now repo =
    let event : FestivalClassWaitlistEvent = record {
      id = event_id;
      organization_id = organization_id;
      festival_id = none;
      festival_class_id = class_id;
      waitlist_entry_id = e.id;
      event_type = withdrawn_event;
      actor_type = actor_type;
      actor_id = actor_id;
      created_at = now;
    } in
    (
      record {
        entries = assign e.id (withdraw now) repo.entries;
        events = repo.events ++ event ∷ [];
      },
      record { entry = some (withdraw now e); already_withdrawn = false },
    )

unfoldable pub withdraw_entry :
    ℕ
    → ℕ
    → ℕ
    → ActorType
    → ℕ
    → ℕ
    → ℕ
    → WaitlistRepository
    → WaitlistRepository × WithdrawWaitlistEntryResult
withdraw_entry organization_id class_id child_id actor_type actor_id event_id now repo =
    elim (find_active_entry organization_id class_id child_id repo) [
      | some e ↦ withdraw_active organization_id class_id e actor_type actor_id event_id now repo
      | none ↦ elim (find_withdrawn_entry organization_id class_id child_id repo) [
        | some e ↦ (repo, record { entry = some e; already_withdrawn = true })
        | none ↦ (repo, record { entry = none; already_withdrawn = false })
      ]
    ]

-- A filter that is `undefined` or empty lets everything through.
abbrev pub matches : Option ℕ → ℕ → Bool
matches none n = true
matches (some m) n = n == m

unfoldable pub list_entries_for_parent :
    ℕ → ℕ → Option ℕ → Option ℕ → WaitlistRepository → List FestivalClassWaitlistEntry
unfolding sort
list_entries_for_parent organization_id parent_customer_id festival_id class_id repo =
    sort (λ a b. leb b.joined_at a.joined_at)
      (filter
        (λ e.
          e.organization_id == organization_id
          && e.parent_customer_id == parent_customer_id
          && matches festival_id e.festival_id
          && matches class_id e.festival_class_id)
        repo.entries)

-- Active entries first, and among those of one status the earlier to join.
unfoldable pub roster_before : FestivalClassWaitlistEntry → FestivalClassWaitlistEntry → Bool
roster_before a b =
    if is_active a.status
    then (if is_active b.status then leb a.joined_at b.joined_at else true)
    else (if is_active b.status then false else leb a.joined_at b.joined_at)

unfoldable pub list_entries_for_class_roster :
    ℕ → ℕ → WaitlistRepository → List FestivalClassWaitlistEntry
unfolding sort roster_before
list_entries_for_class_roster organization_id class_id repo = sort roster_before (
    filter (λ e. e.organization_id == organization_id && e.festival_class_id == class_id)
      repo.entries)

unfoldable pub list_events_for_entry : ℕ → ℕ → WaitlistRepository → List FestivalClassWaitlistEvent
unfolding sort
list_events_for_entry organization_id waitlist_entry_id repo =
    sort (λ a b. leb a.created_at b.created_at)
      (filter
        (λ e. e.organization_id == organization_id && e.waitlist_entry_id == waitlist_entry_id)
        repo.events)
