-- ===== src/EventWindows/Election/Tests.antt =====
-- The elections of 2024, 2026 and 2032.
use regime_detection.Prelude.Int.{int_eq}
use regime_detection.Prelude.{
  ℕ, ◌≤◌, ◌≡◌, refl, arith, nat_eq, string_eq, bool_eq, value_error, ok, err,
}
use regime_detection.EventWindows.Dates.{to_ordinal, weekday}
use regime_detection.EventWindows.Election.{us_general_election_date}
use regime_detection.EventWindows.Election.Tuesday.{november, us_general_election_date-IsTuesday}

in_2024 : us_general_election_date 2_024 ≡ ok (to_ordinal (november 2_024 5))
unfolding us_general_election_date
in_2024 = refl

in_2032 : us_general_election_date 2_032 ≡ ok (to_ordinal (november 2_032 2))
unfolding us_general_election_date
in_2032 = refl

no_year : us_general_election_date 0 ≡ err value_error
unfolding us_general_election_date
no_year = refl

us_general_election_date-IsTuesday_example :
    (day : ℕ) × (2 ≤ day)
    × (day ≤ 8)
    × (us_general_election_date 2_026 ≡ ok (to_ordinal (november 2_026 day)))
    × (weekday (to_ordinal (november 2_026 day)) ≡ 1)
us_general_election_date-IsTuesday_example =
    us_general_election_date-IsTuesday 2_026 (omega arith) (omega arith)
