-- ===== src/Availability/Tests.antt =====
-- Runs of packages/common/src/availability.ts, and the witnesses.
use festival.Base.{
  ℕ, ◌+◌, ◌≤◌, arith, ◌-◌, inl, length, refl, [], inr, some, ◌∷◌, map, leb, ◌≡◌, List,
}
use festival.Availability.Normal.{normalize_available_hours_again}
use festival.Availability.Hours.{HourNumber, normalize_available_hours, whole, other_number}
use festival.Availability.Dates.{
  enumerate_festival_dates_lem, enumerate_festival_dates, parse_iso_calendar_date, Calendar,
}

-- 9 and 8, out of order and repeated.
abbrev hours : List HourNumber
hours = whole 9 ∷ whole 8 ∷ whole 9 ∷ []

abbrev normal : List ℕ
normal = 8 ∷ 9 ∷ []

hours_normalized : normalize_available_hours hours ≡ inr normal
unfolding normalize_available_hours festival.Availability.Hours.collect_hours festival.Base.sort
hours_normalized = refl

evening_refused : normalize_available_hours (whole 8 ∷ whole 18 ∷ []) ≡ inl (whole 18)
unfolding normalize_available_hours festival.Availability.Hours.collect_hours
evening_refused = refl

normalize_available_hours_again_example :
    (normalize_available_hours (map whole normal) ≡ inr normal) × (length normal ≤ 10)
normalize_available_hours_again_example =
    normalize_available_hours_again hours normal hours_normalized

-- A calendar whose texts are a thousand more than the days.
abbrev calendar : Calendar
calendar = record {
  has_date_form = λ value. leb 1000 value;
  new_date = λ value. some (value - 1000);
  to_iso_date = λ day. day + 1000;
}

first_read : parse_iso_calendar_date calendar 1007 ≡ inr 7
unfolding parse_iso_calendar_date
first_read = refl

last_read : parse_iso_calendar_date calendar 1009 ≡ inr 9
unfolding parse_iso_calendar_date
last_read = refl

enumerate_festival_dates_lem_example :
    enumerate_festival_dates calendar 1007 1009 ≡ inr (1007 ∷ 1008 ∷ 1009 ∷ [])
enumerate_festival_dates_lem_example =
    enumerate_festival_dates_lem calendar 1007 1009 7 9 first_read last_read
