-- ===== src/Availability/Sorted.antt =====
use festival.Base.{
  ap, filter-All, All-map, inr, subst, ◌||◌, ◌≤◌, refl, inl, [], false, true, ◌==◌, ◌∙◌, ◌&&◌,
  arith, Bool-cases, leb, ◌<◌, ◌≡◌, filter, All, ◌∷◌, Nodup, contains, Bool, List, ℕ, insert_sorted,
  sort,
}

-- Lists in strictly rising order: a sorted set is one, and its elements determine it.

abbrev pub IsRising : List ℕ → Type 0
IsRising [] = Unit
IsRising (x ∷ xs) = All (λ y. x < y) xs × IsRising xs

pub All-contains : (P : ℕ → Type 0) (y : ℕ) (xs : List ℕ) → All P xs → contains y xs ≡ true → P y
All-contains P y [] h e = cc
All-contains P y (x ∷ xs) (p, h) e = elim (Bool-cases (x == y)) [
  | inl q ↦ subst P (ground (arith, q)) p
  | inr q ↦ All-contains P y xs h (ground (arith, e, q))
]

pub not_below : (x : ℕ) (xs : List ℕ) → All (λ y. x < y) xs → contains x xs ≡ false
not_below x [] h = refl
not_below x (y ∷ xs) (p, h) = ground (arith, p, not_below x xs h)

-- Two rising lists with the same elements are one.
pub rising_ext :
    (xs ys : List ℕ)
    → IsRising xs
    → IsRising ys
    → ((h : ℕ) → contains h xs ≡ contains h ys)
    → xs ≡ ys
rising_ext [] [] p q same = refl
rising_ext [] (y ∷ ys) p q same = absurd (ground (arith, same y))
rising_ext (x ∷ xs) [] p q same = absurd (ground (arith, same x))
rising_ext (x ∷ xs) (y ∷ ys) (a, p) (b, q) same =
    let lower : x ≤ y = elim (Bool-cases (contains y xs)) [
      | inl e ↦ omega (arith, All-contains (λ z. x < z) y xs a e)
      | inr e ↦ ground (arith, same y, e)
    ] in
    let upper : y ≤ x = elim (Bool-cases (contains x ys)) [
      | inl e ↦ omega (arith, All-contains (λ z. y < z) x ys b e)
      | inr e ↦ ground (arith, same x, e)
    ] in
    let heads : x ≡ y = omega (arith, lower, upper) in
    let tails : xs ≡ ys =
      rising_ext xs ys p q
        (λ h. ground (arith, same h, heads, not_below x xs a, not_below y ys b)) in
    ground (arith, heads, tails)

insert_sorted-contains :
    (h x : ℕ) (xs : List ℕ) → contains h (insert_sorted leb x xs) ≡ (x == h || contains h xs)
unfolding insert_sorted
insert_sorted-contains h x [] = refl
insert_sorted-contains h x (y ∷ xs) = ground (arith, insert_sorted-contains h x xs)

insert_sorted-All :
    (P : ℕ → Type 0) (x : ℕ) (xs : List ℕ) → P x → All P xs → All P (insert_sorted leb x xs)
unfolding insert_sorted
insert_sorted-All P x [] p h = (p, tt)
insert_sorted-All P x (y ∷ xs) p (q, h) = elim (Bool-cases (leb x y)) [
  | inl e ↦ rw (insert_sorted, e) (p, (q, h))
  | inr e ↦ rw (insert_sorted, e) (q, insert_sorted-All P x xs p h)
]

insert_sorted-IsRising :
    (x : ℕ) (xs : List ℕ) → contains x xs ≡ false → IsRising xs → IsRising (insert_sorted leb x xs)
unfolding insert_sorted
insert_sorted-IsRising x [] fresh h = (tt, tt)
insert_sorted-IsRising x (y ∷ xs) fresh (a, h) = elim (Bool-cases (leb x y)) [
  | inl e ↦
      let below : x < y = ground (arith, e, fresh) in
      rw (insert_sorted, e) ((below, All-map (λ z p. omega (arith, below, p)) xs a), (a, h))
  | inr e ↦
      let above : y < x = ground (arith, e) in
      rw (insert_sorted, e)
        (
          insert_sorted-All (λ z. y < z) x xs above a,
          insert_sorted-IsRising x xs (ground (arith, fresh)) h,
        )
]

pub sort-contains : (h : ℕ) (xs : List ℕ) → contains h (sort leb xs) ≡ contains h xs
unfolding sort
sort-contains h [] = refl
sort-contains h (x ∷ xs) =
    ground (arith, insert_sorted-contains h x (sort leb xs), sort-contains h xs)

pub sort-IsRising : (xs : List ℕ) → Nodup xs → IsRising (sort leb xs)
unfolding sort
sort-IsRising [] h = tt
sort-IsRising (x ∷ xs) (fresh, h) =
    insert_sorted-IsRising x (sort leb xs) (sort-contains x xs ∙ fresh) (sort-IsRising xs h)

pub filter-IsRising : (p : ℕ → Bool) (xs : List ℕ) → IsRising xs → IsRising (filter p xs)
filter-IsRising p [] h = tt
filter-IsRising p (x ∷ xs) (a, h) = elim (Bool-cases (p x)) [
  | inl e ↦
      rw e (
        All-map (λ y q. q.0) (filter p xs) (filter-All (λ y. x < y) p xs a),
        filter-IsRising p xs h,
      )
  | inr e ↦ rw e (filter-IsRising p xs h)
]

pub contains-filter :
    (h : ℕ) (p : ℕ → Bool) (xs : List ℕ) → contains h (filter p xs) ≡ (contains h xs && p h)
contains-filter h p [] = refl
contains-filter h p (x ∷ xs) = elim (Bool-cases (x == h)) [
  | inl e ↦
      let eq : p x ≡ p h = ap p (ground (arith, e)) in ground (arith, e, eq, contains-filter h p xs)
  | inr e ↦ ground (arith, e, contains-filter h p xs)
]
