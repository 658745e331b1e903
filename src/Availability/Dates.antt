-- ===== src/Availability/Dates.antt =====
-- `enumerateFestivalDates` of packages/common/src/availability.ts. A text is a natural, a `Date` at
-- midnight is the number of its day. JavaScript's regular expression and `Date` are parameters.
use festival.Base.{
  ap, ℕ, zero, suc, ◌+◌, ◌-◌, ◌<◌, ◌≤◌, ◌≡◌, refl, Bool, Option, none, some, List, [], ◌∷◌, map,
  leb, ltb, ◌⊎◌, inl, inr, ◌==◌, if◌then◌else◌, arith, Bool-cases,
}

-- The test of the form `YYYY-MM-DD`, the day that `new Date` reads from a text, where it is one, and
-- the text of `toISOString().slice(0, 10)` of a day.
pub record Calendar : Type 0 where
  pub has_date_form : ℕ → Bool
  pub new_date : ℕ → Option ℕ
  pub to_iso_date : ℕ → ℕ

pub data CalendarError : Type 0 where
  not_in_form invalid_date : CalendarError

abbrev pub checked_date : Calendar → ℕ → Option ℕ → CalendarError ⊎ ℕ
checked_date calendar value none = inl invalid_date
checked_date calendar value (some parsed) =
    if calendar.to_iso_date parsed == value then inr parsed else inl invalid_date

unfoldable pub parse_iso_calendar_date : Calendar → ℕ → CalendarError ⊎ ℕ
parse_iso_calendar_date calendar value =
    if calendar.has_date_form value
    then checked_date calendar value (calendar.new_date value)
    else inl not_in_form

-- The loop from the current day to the last one. Its fuel is one more than the days between them.
unfoldable pub enumerate_loop : Calendar → ℕ → ℕ → ℕ → List ℕ
enumerate_loop calendar zero current last = []
enumerate_loop calendar (suc fuel) current last =
    let rest = enumerate_loop calendar fuel (suc current) last in
    if leb current last then calendar.to_iso_date current ∷ rest else []

unfoldable pub enumerate_festival_dates : Calendar → ℕ → ℕ → CalendarError ⊎ List ℕ
enumerate_festival_dates calendar start_date end_date =
    elim (parse_iso_calendar_date calendar start_date) [
      | inl error ↦ inl error
      | inr current ↦ elim (parse_iso_calendar_date calendar end_date) [
        | inl error ↦ inl error
        | inr last ↦
            if ltb last current
            then inr []
            else inr (enumerate_loop calendar (suc (last - current)) current last)
      ]
    ]

-- A number of days from a first one on.
abbrev pub days_from : ℕ → ℕ → List ℕ
days_from first zero = []
days_from first (suc n) = first ∷ days_from (suc first) n

no_days : (current last : ℕ) → last < current → suc last - current ≡ 0
no_days current last h = omega (arith, h)

more_days : (current last : ℕ) → current ≤ last → suc last - current ≡ suc (suc last - suc current)
more_days current last h = omega (arith, h)

-- With fuel for every day from the current one to the last one, the loop ends by its own test: it
-- gives the texts of these days in their order, however much more fuel there is.
pub enumerate_loop_lem :
    (calendar : Calendar) (fuel current last : ℕ)
    → last < current + fuel
    → enumerate_loop calendar fuel current last
      ≡ map calendar.to_iso_date (days_from current (suc last - current))
unfolding enumerate_loop
enumerate_loop_lem calendar zero current last h = rw (no_days current last (omega (arith, h))) refl
enumerate_loop_lem calendar (suc fuel) current last h = elim (Bool-cases (leb current last)) [
  | inl e ↦
      let within : current ≤ last = ground (arith, e) in
      rw (enumerate_loop, e, more_days current last within)
        (ap (◌∷◌ (calendar.to_iso_date current))
          (enumerate_loop_lem calendar fuel (suc current) last (omega (arith, h))))
  | inr e ↦
      let beyond : last < current = ground (arith, e) in
      rw (enumerate_loop, e, no_days current last beyond) refl
]

-- If both dates are read, the call gives the texts of all days from the first date to the last, in
-- their order, and none if the last comes before the first.
pub enumerate_festival_dates_lem :
    (calendar : Calendar) (start_date end_date first last : ℕ)
    → parse_iso_calendar_date calendar start_date ≡ inr first
    → parse_iso_calendar_date calendar end_date ≡ inr last
    → enumerate_festival_dates calendar start_date end_date
      ≡ inr (map calendar.to_iso_date (days_from first (suc last - first)))
unfolding enumerate_festival_dates
enumerate_festival_dates_lem calendar start_date end_date first last s e =
    elim (Bool-cases (ltb last first)) [
      | inl b ↦
          let before : last < first = ground (arith, b) in
          rw (enumerate_festival_dates, s, e, b, no_days first last before) refl
      | inr b ↦
          let enough : last < first + suc (last - first) = ground (arith, b) in
          rw (enumerate_festival_dates, s, e, b)
            (ap inr (enumerate_loop_lem calendar (suc (last - first)) first last enough))
    ]
