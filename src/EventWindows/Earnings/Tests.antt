-- ===== src/EventWindows/Earnings/Tests.antt =====
-- Dates around the season that begins on 8 January 2024.
use regime_detection.Prelude.Int.{int_eq}
use regime_detection.Prelude.{
  ℕ, ◌≡◌, refl, true, false, some, [], ◌∷◌, arith, nat_eq, string_eq, bool_eq, value_error, ok, err,
}
use regime_detection.EventWindows.Dates.{Date, to_ordinal}
use regime_detection.EventWindows.Earnings.{
  candidate_quarter_start_month, in_window, is_in_earnings_season, build_earnings_season_windows,
  compute_earnings_season_window,
}
use regime_detection.EventWindows.Earnings.Season.{season, is_in_earnings_season-eq-own_quarter}

abbrev on : ℕ → ℕ → Date
on month day = record { year = 2_024; month = month; day = day }

last_day : is_in_earnings_season (on 2 12) ≡ ok true
unfolding is_in_earnings_season
last_day = refl

day_after : is_in_earnings_season (on 2 13) ≡ ok false
unfolding is_in_earnings_season
day_after = refl

-- The first quarter that datetime knows has none before it.
first_day : is_in_earnings_season (record { year = 1; month = 1; day = 1 }) ≡ err value_error
unfolding is_in_earnings_season
first_day = refl

not_a_quarter : compute_earnings_season_window 2_024 2 ≡ err value_error
unfolding compute_earnings_season_window
not_a_quarter = refl

half_year :
    build_earnings_season_windows (on 1 1) (on 6 30)
    ≡ some (ok (season 2_024 1 ∷ season 2_024 4 ∷ []))
unfolding build_earnings_season_windows
half_year = refl

is_in_earnings_season-eq-own_quarter_example :
    is_in_earnings_season (on 3 1)
    ≡ ok (in_window (season 2_024 (candidate_quarter_start_month 3)) (to_ordinal (on 3 1)))
is_in_earnings_season-eq-own_quarter_example =
    is_in_earnings_season-eq-own_quarter (on 3 1) (omega arith) (omega arith) (omega arith)
      (omega arith) (omega arith)
