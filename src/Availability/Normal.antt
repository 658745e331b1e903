-- ===== src/Availability/Normal.antt =====
-- What `normalizeAvailableHours` of packages/common/src/availability.ts computes.
use festival.Base.{
  count-le-length, ◌≢◌, length-filter, ◌≤◌, length, ap, ◌⊎◌, All, map, refl, contains-add, ◌∙◌, sym,
  leb, add-Nodup, subst, sort, ◌&&◌, add, [], inl, ◌||◌, filter, Bool-cases, ◌==◌, contains, ◌∷◌,
  inr, false, Nodup, true, arith, ◌≡◌, Bool, ℕ, List,
}
use festival.Availability.Sorted.{
  contains-filter, sort-contains, filter-IsRising, sort-IsRising, rising_ext, IsRising,
}
use festival.Availability.Hours.{
  is_availability_hour, availability_hours, HourNumber, normalize_available_hours, collect_hours,
  whole, other_number,
}

-- The number is one of the listed.
abbrev pub is_listed : List HourNumber → ℕ → Bool
is_listed [] hour = false
is_listed (whole h ∷ hours) hour = let rest = is_listed hours hour in h == hour || rest
is_listed (other_number n ∷ hours) hour = is_listed hours hour

abbrev pub all_hours : List HourNumber → Bool
all_hours [] = true
all_hours (hour ∷ hours) = let rest = all_hours hours in is_availability_hour hour && rest

-- What the loop has collected, where all numbers are hours.
collect_hours_unique :
    (hours : List HourNumber) (unique : List ℕ)
    → Nodup unique
    → all_hours hours ≡ true
    → (u : List ℕ) × (collect_hours hours unique ≡ inr u)
      × Nodup u
      × ((h : ℕ) → contains h u ≡ (contains h unique || is_listed hours h))
unfolding collect_hours
collect_hours_unique [] unique nodup ok = (unique, refl, nodup, λ h. ground arith)
collect_hours_unique (other_number n ∷ hours) unique nodup ok = absurd (ground (arith, ok))
collect_hours_unique (whole k ∷ hours) unique nodup ok =
    let (u, c, d, m) =
      collect_hours_unique hours (add k unique) (add-Nodup k unique nodup) (ground (arith, ok)) in
    (u, ground (arith, c, ok), d, λ h. ground (arith, m h, contains-add h k unique))

listed-hour :
    (hours : List HourNumber) (h : ℕ)
    → all_hours hours ≡ true
    → is_listed hours h ≡ true
    → contains h availability_hours ≡ true
listed-hour [] h ok l = absurd (ground (arith, l))
listed-hour (other_number n ∷ hours) h ok l = absurd (ground (arith, ok))
listed-hour (whole k ∷ hours) h ok l = elim (Bool-cases (k == h)) [
  | inl e ↦
      let same : k ≡ h = ground (arith, e) in
      subst (λ z. contains z availability_hours ≡ true) same (ground (arith, ok))
  | inr e ↦ listed-hour hours h (ground (arith, ok)) (ground (arith, l, e))
]

and_absorbs : (a b : Bool) → (b ≡ true → a ≡ true) → (a && b) ≡ b
and_absorbs true b h = refl
and_absorbs false true h = h refl
and_absorbs false false h = refl

availability_hours-IsRising : IsRising availability_hours
availability_hours-IsRising = ground arith

normalize_available_hours-filter :
    (hours : List HourNumber)
    → all_hours hours ≡ true
    → normalize_available_hours hours ≡ inr (filter (is_listed hours) availability_hours)
unfolding normalize_available_hours
normalize_available_hours-filter hours ok =
    let (u, c, d, m) = collect_hours_unique hours [] tt ok in
    let same : sort leb u ≡ filter (is_listed hours) availability_hours =
      rising_ext (sort leb u) (filter (is_listed hours) availability_hours) (sort-IsRising u d)
        (filter-IsRising (is_listed hours) availability_hours availability_hours-IsRising)
        (λ h.
          sort-contains h u
          ∙ m h
          ∙ sym (
              contains-filter h (is_listed hours) availability_hours
              ∙ and_absorbs (contains h availability_hours) (is_listed hours h)
                  (listed-hour hours h ok))) in
    ground (arith, c, same)

-- The first number that is no hour of the day.
collect_hours-refused :
    (hours : List HourNumber) (unique : List ℕ)
    → all_hours hours ≡ false
    → (hour : HourNumber) × (collect_hours hours unique ≡ inl hour)
      × (is_availability_hour hour ≡ false)
unfolding collect_hours
collect_hours-refused [] unique bad = absurd (ground (arith, bad))
collect_hours-refused (other_number n ∷ hours) unique bad = (other_number n, refl, refl)
collect_hours-refused (whole k ∷ hours) unique bad =
    elim (Bool-cases (is_availability_hour (whole k))) [
      | inr e ↦ (whole k, rw (collect_hours, e) refl, e)
      | inl e ↦
          let (hour, c, refused) =
            collect_hours-refused hours (add k unique) (ground (arith, e, bad)) in
          (hour, rw (collect_hours, e) c, refused)
    ]

pub normalize_available_hours_lem :
    (hours : List HourNumber)
    → ((all_hours hours ≡ true)
        × (normalize_available_hours hours ≡ inr (filter (is_listed hours) availability_hours)))
      ⊎ ((hour : HourNumber) × (normalize_available_hours hours ≡ inl hour)
          × (is_availability_hour hour ≡ false))
unfolding normalize_available_hours
normalize_available_hours_lem hours = elim (Bool-cases (all_hours hours)) [
  | inl e ↦ inl (e, normalize_available_hours-filter hours e)
  | inr e ↦
      let (hour, c, refused) = collect_hours-refused hours [] e in
      inr (hour, rw (normalize_available_hours, c) refl, refused)
]

whole-all_hours :
    (p : ℕ → Bool) (xs : List ℕ)
    → All (λ h. contains h availability_hours ≡ true) xs
    → all_hours (map whole (filter p xs)) ≡ true
whole-all_hours p [] h = refl
whole-all_hours p (x ∷ xs) (e, h) = elim (Bool-cases (p x)) [
  | inl q ↦ rw (q, e) (whole-all_hours p xs h)
  | inr q ↦ rw q (whole-all_hours p xs h)
]

is_listed-whole : (h : ℕ) (xs : List ℕ) → is_listed (map whole xs) h ≡ contains h xs
is_listed-whole h [] = refl
is_listed-whole h (x ∷ xs) = ap (λ b. x == h || b) (is_listed-whole h xs)

and_again : (a b : Bool) → (a && (a && b)) ≡ (a && b)
and_again true b = refl
and_again false b = refl

listed_again :
    (hours : List HourNumber) (normal : List ℕ)
    → normal ≡ filter (is_listed hours) availability_hours
    → filter (is_listed (map whole normal)) availability_hours ≡ normal
listed_again hours normal e =
    let chosen = filter (is_listed hours) availability_hours in
    let again = filter (is_listed (map whole normal)) availability_hours in
    let same : again ≡ chosen =
      rising_ext again chosen
        (filter-IsRising (is_listed (map whole normal)) availability_hours
          availability_hours-IsRising)
        (filter-IsRising (is_listed hours) availability_hours availability_hours-IsRising)
        (λ h.
          contains-filter h (is_listed (map whole normal)) availability_hours
          ∙ ap (λ b. contains h availability_hours && b)
              (is_listed-whole h normal
                ∙ ap (contains h) e
                ∙ contains-filter h (is_listed hours) availability_hours)
          ∙ and_again (contains h availability_hours) (is_listed hours h)
          ∙ sym (contains-filter h (is_listed hours) availability_hours)) in
    same ∙ sym e

inr_injective {ℓ κ} : {A : Type ℓ} {B : Type κ} {x y : B} → ◌≡◌ {A = A ⊎ B} (inr x) (inr y) → x ≡ y
inr_injective h = ground (arith, h)

inl_ne_inr {ℓ κ} : {A : Type ℓ} {B : Type κ} {x : A} {y : B} → ◌≢◌ {A = A ⊎ B} (inl x) (inr y)
inl_ne_inr h = ground (arith, h)

availability_hours-All : All (λ h. contains h availability_hours ≡ true) availability_hours
availability_hours-All =
    (refl, (refl, (refl, (refl, (refl, (refl, (refl, (refl, (refl, (refl, tt))))))))))

-- Hours that have been normalized, and are read back and normalized again, are those that were
-- stored; there are ten at most.
pub normalize_available_hours_again :
    (hours : List HourNumber) (normal : List ℕ)
    → normalize_available_hours hours ≡ inr normal
    → (normalize_available_hours (map whole normal) ≡ inr normal) × (length normal ≤ 10)
normalize_available_hours_again hours normal h = elim (normalize_available_hours_lem hours) [
  | inr (hour, c, refused) ↦ absurd (inl_ne_inr (sym c ∙ h))
  | inl (ok, c) ↦
      let chosen : normal ≡ filter (is_listed hours) availability_hours =
        inr_injective (sym h ∙ c) in
      (
        normalize_available_hours-filter (map whole normal) (
              ap (λ l. all_hours (map whole l)) chosen
              ∙ whole-all_hours (is_listed hours) availability_hours availability_hours-All)
            ∙ ap inr (listed_again hours normal chosen),
        subst (λ n. n ≤ 10)
            (sym (ap length chosen ∙ length-filter (is_listed hours) availability_hours))
            (count-le-length (is_listed hours) availability_hours),
      )
]
