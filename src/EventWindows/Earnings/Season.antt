-- ===== src/EventWindows/Earnings/Season.antt =====
-- The season of a date's own quarter decides; that of the quarter before is over by then.
use regime_detection.Prelude.Int.{int_eq}
use regime_detection.Prelude.{
  ℕ, ◌+◌, ◌-◌, ◌≤◌, ◌<◌, ◌≡◌, refl, ap, inl, inr, Bool, true, false, ◌&&◌, arith, leb, lt→leb,
  Bool-cases, nat_eq, string_eq, bool_eq, contains, ok,
}
use regime_detection.EventWindows.Dates.{Date, to_ordinal, monday}
use regime_detection.EventWindows.Dates.Weekdays.{
  column_days_start, make_date-ok, days_in_month_bounds, first_in_column, month_start, weekday_lt,
}
use regime_detection.EventWindows.Earnings.Prior.{before, quarter-Prior, later_month}
use regime_detection.EventWindows.Earnings.{
  EarningsWindow, quarter_start_months, window_length_calendar_days, second_monday,
  compute_earnings_season_window, candidate_quarter_start_month, in_window, in_previous_season,
  is_in_earnings_season,
}

-- The day of the second Monday.
abbrev pub second_monday_day : ℕ → ℕ → ℕ
second_monday_day y m = first_in_column (month_start y m) monday + 7

monday_range :
    (first : ℕ)
    → first < 7
    → (1 ≤ first_in_column first monday) × (first_in_column first monday ≤ 7)
monday_range first h = ground arith

second_monday_range : (y m : ℕ) → (8 ≤ second_monday_day y m) × (second_monday_day y m ≤ 14)
second_monday_range y m =
    let first = month_start y m in
    let (low, high) =
      monday_range first (weekday_lt (to_ordinal (record { year = y; month = m; day = 1 }))) in
    (omega (arith, low), omega (arith, high))

abbrev pub season : ℕ → ℕ → EarningsWindow
season y m =
    let start : Date = record { year = y; month = m; day = second_monday_day y m } in
    record { start_date = start; end_ordinal = to_ordinal start + window_length_calendar_days }

season_computed :
    (y m : ℕ)
    → 1 ≤ y
    → y ≤ 9_999
    → 1 ≤ m
    → m ≤ 12
    → contains quarter_start_months m ≡ true
    → compute_earnings_season_window y m ≡ ok (season y m)
unfolding compute_earnings_season_window second_monday
season_computed y m y1 y2 m1 m2 quarter =
    let (rest, column) = column_days_start y m monday (omega arith) in
    let (low, high) = second_monday_range y m in
    let (least, most) = days_in_month_bounds y m in
    rw
      (
        quarter,
        column,
        make_date-ok y m (second_monday_day y m) y1 y2 m1 m2 (omega (arith, low))
            (omega (arith, high, least)),
      )
      refl

and_false : (b : Bool) → b && false ≡ false
and_false true = refl
and_false false = refl

quarter_of :
    (m : ℕ)
    → 1 ≤ m
    → (contains quarter_start_months (candidate_quarter_start_month m) ≡ true)
      × (candidate_quarter_start_month m ≤ m)
      × (1 ≤ candidate_quarter_start_month m)
quarter_of m low = ground arith

-- A date comes after the days before a month that is not later than its own.
date_after :
    (as_of : Date) (q : ℕ)
    → 1 ≤ q
    → q ≤ as_of.month
    → 1 ≤ as_of.day
    → before as_of.year q < to_ordinal as_of
unfolding before to_ordinal
date_after as_of q low begins day =
    let month : q + (as_of.month - q) ≡ as_of.month = omega arith in
    let days = later_month as_of.year q (as_of.month - q) low in
    let days_to = rw month at days in omega arith

season-end : (y m : ℕ) → (season y m).end_ordinal ≤ before y m + 49
unfolding to_ordinal before
season-end y m = let (low, high) = second_monday_range y m in omega arith

after_window :
    (window : EarningsWindow) (as_of : ℕ)
    → window.end_ordinal < as_of
    → in_window window as_of ≡ false
unfolding in_window
after_window window as_of over =
    rw (lt→leb as_of window.end_ordinal over) (and_false (leb (to_ordinal window.start_date) as_of))

-- The season of the quarter before a date is over at the date.
previous_over :
    (as_of : Date) (q : ℕ)
    → 2 ≤ as_of.year
    → as_of.year ≤ 9_999
    → contains quarter_start_months q ≡ true
    → 1 ≤ q
    → q ≤ as_of.month
    → 1 ≤ as_of.day
    → in_previous_season (season as_of.year q).start_date (to_ordinal as_of) ≡ ok false
unfolding in_previous_season
previous_over as_of q y1 y2 is_quarter from begins d1 =
    let prior = quarter-Prior as_of.year q y1 is_quarter in
    let ends = season-end prior.year prior.start in
    let after = date_after as_of q from begins d1 in
    rw
      (
        prior.previous,
        season_computed prior.year prior.start prior.from_year (omega (arith, prior.to_year, y2))
            prior.from_month prior.to_month prior.quarter,
      )
      (ap ok (
        after_window (season prior.year prior.start) (to_ordinal as_of)
          (omega (arith, ends, after, prior.gap))))

-- A date is in an earnings season exactly when it is in that of its own calendar quarter, from the
-- second Monday of the quarter's first month to the 35th day after it. The test of the quarter before,
-- which the function makes for every other date, is never true, and raises nothing from the year 2 on.
pub is_in_earnings_season-eq-own_quarter :
    (as_of : Date)
    → 2 ≤ as_of.year
    → as_of.year ≤ 9_999
    → 1 ≤ as_of.month
    → as_of.month ≤ 12
    → 1 ≤ as_of.day
    → is_in_earnings_season as_of
      ≡ ok (
          in_window
            (season as_of.year (candidate_quarter_start_month as_of.month))
            (to_ordinal as_of))
unfolding is_in_earnings_season
is_in_earnings_season-eq-own_quarter as_of y1 y2 m1 m2 d1 =
    let q = candidate_quarter_start_month as_of.month in
    let (is_quarter, begins, from) = quarter_of as_of.month m1 in
    rw
      (season_computed as_of.year q (omega (arith, y1)) y2 from (omega (arith, begins, m2))
        is_quarter)
      (elim (Bool-cases (in_window (season as_of.year q) (to_ordinal as_of))) [
        | inl inside ↦ rw inside refl
        | inr outside ↦ rw (outside, previous_over as_of q y1 y2 is_quarter from begins d1) refl
      ])
