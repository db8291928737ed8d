-- ===== src/EventWindows/Election/Tuesday.antt =====
-- The day of the election.
use regime_detection.Prelude.Int.{int_eq}
use regime_detection.Prelude.{
  ℕ, ◌+◌, ◌-◌, ◌%◌, ◌≤◌, ◌≡◌, refl, ap, arith, nat_eq, string_eq, bool_eq, ok,
}
use regime_detection.EventWindows.Dates.{Date, days_in_month, to_ordinal, weekday, make_date}
use regime_detection.EventWindows.Dates.{days_before_year, days_before_month}
use regime_detection.EventWindows.Dates.Weekdays.{make_date-ok}
use regime_detection.EventWindows.Election.{us_general_election_date}

abbrev pub november : ℕ → ℕ → Date
november year day = record { year = year; month = 11; day = day }

november_starts : (year : ℕ) → 1 ≤ year → year ≤ 9_999 → make_date year 11 1 ≡ ok (november year 1)
unfolding days_in_month
november_starts year low high =
    make_date-ok year 11 1 low high (omega arith) (omega arith) (omega arith) (omega arith)

-- The days before November, in ordinals.
before_november : ℕ → ℕ
before_november year = days_before_year year + days_before_month year 11

november-ordinal : (year day : ℕ) → to_ordinal (november year day) ≡ before_november year + day
unfolding to_ordinal before_november
november-ordinal year day = refl

ordinal_shift : (b until : ℕ) → b + 1 + until + 1 ≡ b + (until + 2)
ordinal_shift b until = omega arith

tuesday_after : (b : ℕ) → weekday (b + ((7 - weekday (b + 1)) % 7 + 2)) ≡ 1
unfolding weekday
tuesday_after b = omega arith

-- In every year that datetime knows, the general election is on the Tuesday after the first Monday of
-- November: its date is one of 2 to 8 November, and its weekday is Tuesday.
pub us_general_election_date-IsTuesday :
    (year : ℕ)
    → 1 ≤ year
    → year ≤ 9_999
    → (day : ℕ) × (2 ≤ day)
      × (day ≤ 8)
      × (us_general_election_date year ≡ ok (to_ordinal (november year day)))
      × (weekday (to_ordinal (november year day)) ≡ 1)
unfolding us_general_election_date before_november
us_general_election_date-IsTuesday year low high =
    let until = (7 - weekday (to_ordinal (november year 1))) % 7 in
    (
      until + 2,
      omega arith,
      omega arith,
      rw (november_starts year low high, november-ordinal year 1, november-ordinal year (until + 2))
          (ap ok (ordinal_shift (before_november year) until)),
      rw (november-ordinal year (until + 2), november-ordinal year 1)
          (tuesday_after (before_november year)),
    )
