-- ===== src/Waitlist/Invariant.antt =====
-- What the two writing methods of the in-memory waitlist keep:
-- packages/backend/src/waitlist/in-memory-waitlist-repository.ts.
use festival.Base.{
  count-append, Splits-cons, Bool-cases, ap, count-split, if◌then◌else◌, ℕ, ◌+◌, ◌≤◌, ◌≡◌, ◌⊎◌, inl,
  inr, Bool, true, false, ◌&&◌, some, List, [], ◌∷◌, ◌++◌, arith, ◌==◌, count, filter, Splits,
}
use festival.Waitlist.Records.{
  is_active, CreateOrReactivateWaitlistEntryParams, FestivalClassWaitlistEntry, WaitlistRepository,
}
use festival.Waitlist.Repository.{
  reactivate, new_entry, rejoin, is_for, is_withdrawn_for, join, assign, latest, is_active_for,
}

abbrev pub has_id : ℕ → FestivalClassWaitlistEntry → Bool
has_id id e = e.id == id

latest-cons :
    (y x : FestivalClassWaitlistEntry) (ys : List FestivalClassWaitlistEntry)
    → latest (y ∷ ys) ≡ some x
    → (y ≡ x) ⊎ (latest ys ≡ some x)
unfolding latest
latest-cons y x ys h = ground arith

latest-head :
    (p : FestivalClassWaitlistEntry → Bool) (x y : FestivalClassWaitlistEntry)
    (xs : List FestivalClassWaitlistEntry)
    → p y ≡ true
    → y ≡ x
    → Splits x (y ∷ xs) × (p x ≡ true)
latest-head p x y xs py e = (([], xs, ground arith), ground arith)

-- The entry that `createOrReactivateEntry` picks stands in the array and passes the filter.
pub latest-Splits :
    (p : FestivalClassWaitlistEntry → Bool) (x : FestivalClassWaitlistEntry)
    (xs : List FestivalClassWaitlistEntry)
    → latest (filter p xs) ≡ some x
    → Splits x xs × (p x ≡ true)
latest-Splits p x [] h = unfold latest in ground arith
latest-Splits p x (y ∷ xs) h = elim (Bool-cases (p y)) [
  | inl py ↦ elim (latest-cons y x (filter p xs) (ground arith)) [
    | inl e ↦ latest-head p x y xs py e
    | inr e ↦ let (s, q) = latest-Splits p x xs e in (Splits-cons y s, q)
  ]
  | inr py ↦ let (s, q) = latest-Splits p x xs (ground arith) in (Splits-cons y s, q)
]

-- With distinct identifiers an assignment reaches the object itself, wherever it stands.
pub assign-split :
    (f : FestivalClassWaitlistEntry → FestivalClassWaitlistEntry)
    (pre : List FestivalClassWaitlistEntry) (x : FestivalClassWaitlistEntry)
    (post : List FestivalClassWaitlistEntry)
    → count (has_id x.id) pre ≡ 0
    → assign x.id f (pre ++ x ∷ post) ≡ pre ++ f x ∷ post
unfolding assign
assign-split f [] x post h = ground arith
assign-split f (y ∷ pre) x post h = ground (arith, assign-split f pre x post)

-- Identifiers are distinct, and a child is active once at most on the waitlist of a class.
pub record IsValid (repo : WaitlistRepository) : Type 0 where
  pub unique : (id : ℕ) → count (has_id id) repo.entries ≤ 1
  pub single : (o c k : ℕ) → count (is_active_for o c k) repo.entries ≤ 1

-- What `assign` does to a count, in terms of the object that it finds.
pub count-assign :
    (p : FestivalClassWaitlistEntry → Bool)
    (f : FestivalClassWaitlistEntry → FestivalClassWaitlistEntry) (x : FestivalClassWaitlistEntry)
    (xs : List FestivalClassWaitlistEntry)
    → count (has_id x.id) xs ≤ 1
    → Splits x xs
    → count p (assign x.id f xs) + (if p x then 1 else 0) ≡ count p xs + (if p (f x) then 1 else 0)
count-assign p f x xs u (pre, post, e) =
    let once : count (has_id x.id) pre ≡ 0 =
      ground (arith, count-split (has_id x.id) pre x post, ap (count (has_id x.id)) e) in
    let moved : assign x.id f xs ≡ pre ++ f x ∷ post = rw e (assign-split f pre x post once) in
    omega (
      arith,
      ap (count p) moved,
      ap (count p) e,
      count-split p pre x post,
      count-split p pre (f x) post,
    )

-- The two calls of `assign`: of an entry that the filter for withdrawn ones has found, and of an active one.
pub withdrawn_only :
    (o c k : ℕ) (e : FestivalClassWaitlistEntry)
    → is_withdrawn_for o c k e ≡ true
    → (is_for o c k e ≡ true) × (is_active e.status ≡ false)
unfolding is_withdrawn_for
withdrawn_only o c k e h = ground arith

pub active_only :
    (o c k : ℕ) (e : FestivalClassWaitlistEntry)
    → is_active_for o c k e ≡ true
    → (is_for o c k e ≡ true) × (is_active e.status ≡ true)
unfolding is_active_for
active_only o c k e h = ground arith

-- After `createOrReactivateEntry` the child is active once, and no other place of the list changes.
pub record Joins (params : CreateOrReactivateWaitlistEntryParams) (s t : WaitlistRepository)
    : Type 0 where
  pub unique : (id : ℕ) → count (has_id id) t.entries ≤ 1
  pub there :
      count
        (is_active_for params.organization_id params.festival_class_id params.child_id)
        t.entries
      ≡ 1
  pub others :
      (o c k : ℕ)
      → ((o == params.organization_id) && (c == params.festival_class_id) && (k == params.child_id))
        ≡ false
      → count (is_active_for o c k) t.entries ≡ count (is_active_for o c k) s.entries

pub rejoin-Joins :
    (params : CreateOrReactivateWaitlistEntryParams) (e : FestivalClassWaitlistEntry)
    (event_id now : ℕ) (s : WaitlistRepository)
    → IsValid s
    → count
        (is_active_for params.organization_id params.festival_class_id params.child_id)
        s.entries
      ≡ 0
    → Splits e s.entries
    → is_withdrawn_for params.organization_id params.festival_class_id params.child_id e ≡ true
    → Joins params s (rejoin params e event_id now s).0
unfolding rejoin is_active_for is_withdrawn_for
rejoin-Joins params e event_id now s v zero_active split w = record {
  unique = λ id. ground (
    arith,
    v.unique id,
    count-assign (has_id id) (reactivate now) e s.entries (v.unique e.id) split,
  );
  there = ground (
    arith,
    count-assign (is_active_for params.organization_id params.festival_class_id params.child_id)
        (reactivate now) e s.entries (v.unique e.id) split,
  );
  others = λ o c k h. ground (
    arith,
    count-assign (is_active_for o c k) (reactivate now) e s.entries (v.unique e.id) split,
  );
}

pub join-Joins :
    (params : CreateOrReactivateWaitlistEntryParams) (entry_id event_id now : ℕ)
    (s : WaitlistRepository)
    → IsValid s
    → count
        (is_active_for params.organization_id params.festival_class_id params.child_id)
        s.entries
      ≡ 0
    → count (has_id entry_id) s.entries ≡ 0
    → Joins params s (join params entry_id event_id now s).0
unfolding join is_active_for
join-Joins params entry_id event_id now s v zero_active fresh =
    let e : FestivalClassWaitlistEntry = new_entry params entry_id now in
    record {
      unique = λ id. ground (arith, v.unique id, count-append (has_id id) s.entries (e ∷ []));
      there = ground (
        arith,
        count-append (is_active_for params.organization_id params.festival_class_id params.child_id)
            s.entries (e ∷ []),
      );
      others = λ o c k h. ground (arith, count-append (is_active_for o c k) s.entries (e ∷ []));
    }
