-- ===== src/EventWindows/Election.antt =====
-- `us_general_election_date` of src/regime_data_fetch/event_calendar_windows.py, which
-- event_sources/deterministic_election.py has too.
mod Tuesday
mod Tests
use regime_detection.Prelude.{ℕ, ◌+◌, ◌-◌, ◌%◌, Result, ok, ◌>>=◌, ◌>>◌}
use regime_detection.EventWindows.Dates.{to_ordinal, weekday, make_date}

-- `(0 - weekday) % 7` of an integer is not negative.
unfoldable pub us_general_election_date : ℕ → Result ℕ
unfolding make_date to_ordinal weekday
us_general_election_date year = do
  first_november ← make_date year 11 1
  let ordinal = to_ordinal first_november
  let days_until_monday = (7 - weekday ordinal) % 7
  let first_monday = ordinal + days_until_monday
  ok (first_monday + 1)
