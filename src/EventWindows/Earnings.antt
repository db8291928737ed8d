-- ===== src/EventWindows/Earnings.antt =====
-- src/regime_data_fetch/earnings_season_calendar.py: the earnings seasons of the quarters.
mod Prior
mod Season
mod Tests
use regime_detection.Prelude.Int.{int_eq}
use regime_detection.Prelude.{
  ℕ, ◌+◌, ◌-◌, Bool, true, not, ◌&&◌, Option, some, List, [], ◌∷◌, ltb, leb, if◌then◌else◌, ◌==◌,
  nat_eq, string_eq, bool_eq, contains, value_error, Result, ok, err, ◌>>=◌, ◌>>◌, raise_if,
}
use regime_detection.EventWindows.Dates.{Date, to_ordinal, column_days, day_at, make_date, monday}
use regime_detection.EventWindows.Expiry.{month_loop, month_turns}

abbrev pub quarter_start_months : List ℕ
quarter_start_months = 1 ∷ 4 ∷ 7 ∷ 10 ∷ []

abbrev pub window_length_calendar_days : ℕ
window_length_calendar_days = 35

-- The first day of a season as a date, and the last as a day ordinal.
pub record EarningsWindow : Type 0 where
  pub start_date : Date
  pub end_ordinal : ℕ

unfoldable pub second_monday : ℕ → ℕ → Result Date
unfolding column_days make_date
second_monday year month = do
  day ← day_at (column_days year month monday) 1
  make_date year month day

unfoldable pub compute_earnings_season_window : ℕ → ℕ → Result EarningsWindow
unfolding second_monday to_ordinal
compute_earnings_season_window year quarter_start_month = do
  raise_if (not (contains quarter_start_months quarter_start_month)) value_error
  start ← second_monday year quarter_start_month
  ok (record { start_date = start; end_ordinal = to_ordinal start + window_length_calendar_days })

unfoldable pub earnings_turn : ℕ → ℕ → Result (List EarningsWindow)
unfolding compute_earnings_season_window
earnings_turn year month =
    if contains quarter_start_months month
    then (compute_earnings_season_window year month >>= λ window. ok (window ∷ []))
    else ok []

unfoldable pub build_earnings_season_windows : Date → Date → Option (Result (List EarningsWindow))
unfolding month_loop earnings_turn to_ordinal
build_earnings_season_windows start end =
    if ltb (to_ordinal end) (to_ordinal start)
    then some (err value_error)
    else month_loop earnings_turn end.year end.month
        (month_turns start.year start.month end.year end.month) start.year start.month

abbrev pub candidate_quarter_start_month : ℕ → ℕ
candidate_quarter_start_month month =
    if leb 10 month then 10 else (if leb 7 month then 7 else (if leb 4 month then 4 else 1))

-- The year and first month of the quarter before one that begins in `month`.
abbrev pub previous_quarter_start : ℕ → ℕ → Result (ℕ × ℕ)
previous_quarter_start year month =
    if month == 1
    then ok (year - 1, 10)
    else (if month == 4
        then ok (year, 1)
        else (if month == 7
            then ok (year, 4)
            else (if month == 10 then ok (year, 7) else err value_error)))

-- `start <= as_of_date <= end`
unfoldable pub in_window : EarningsWindow → ℕ → Bool
unfolding to_ordinal
in_window window as_of = leb (to_ordinal window.start_date) as_of && leb as_of window.end_ordinal

-- The season of the quarter before the one that begins with a date's month.
unfoldable pub in_previous_season : Date → ℕ → Result Bool
unfolding compute_earnings_season_window in_window
in_previous_season start as_of = do
  previous ← previous_quarter_start start.year start.month
  window ← compute_earnings_season_window previous.0 previous.1
  ok (in_window window as_of)

unfoldable pub is_in_earnings_season : Date → Result Bool
unfolding compute_earnings_season_window in_window to_ordinal in_previous_season
is_in_earnings_season as_of = do
  window ← compute_earnings_season_window as_of.year (candidate_quarter_start_month as_of.month)
  (if in_window window (to_ordinal as_of)
      then ok true
      else in_previous_season window.start_date (to_ordinal as_of))
