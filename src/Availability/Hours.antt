-- ===== src/Availability/Hours.antt =====
-- The hours of packages/common/src/availability.ts.
use festival.Base.{
  map, ℕ, Bool, List, [], ◌∷◌, contains, add, sort, leb, ◌⊎◌, inl, inr, false, if◌then◌else◌,
}

-- A JavaScript number: a whole one that is not negative, or any other.
pub data HourNumber : Type 0 where
  whole : ℕ → HourNumber
  other_number : ℕ → HourNumber

abbrev pub availability_hours : List ℕ
availability_hours = 8 ∷ 9 ∷ 10 ∷ 11 ∷ 12 ∷ 13 ∷ 14 ∷ 15 ∷ 16 ∷ 17 ∷ []

abbrev pub default_available_hours : List ℕ
default_available_hours = 8 ∷ 9 ∷ 10 ∷ 11 ∷ 12 ∷ 13 ∷ 14 ∷ 15 ∷ 16 ∷ []

abbrev pub is_availability_hour : HourNumber → Bool
is_availability_hour (whole hour) = contains hour availability_hours
is_availability_hour (other_number n) = false

-- The loop of `normalizeAvailableHours` over a `Set`; the number that it throws for is the error.
unfoldable pub collect_hours : List HourNumber → List ℕ → HourNumber ⊎ List ℕ
collect_hours [] unique = inr unique
collect_hours (other_number n ∷ hours) unique = inl (other_number n)
collect_hours (whole hour ∷ hours) unique =
    let rest = collect_hours hours (add hour unique) in
    if is_availability_hour (whole hour) then rest else inl (whole hour)

unfoldable pub normalize_available_hours : List HourNumber → HourNumber ⊎ List ℕ
normalize_available_hours hours = elim (collect_hours hours []) [
  | inl hour ↦ inl hour
  | inr unique ↦ inr (sort leb unique)
]

pub record AvailabilityDayRecord : Type 0 where
  pub date : ℕ
  pub available_hours : List ℕ

unfoldable pub build_default_availability_days : List ℕ → List AvailabilityDayRecord
build_default_availability_days dates =
    map (λ date. record { date = date; available_hours = default_available_hours }) dates
