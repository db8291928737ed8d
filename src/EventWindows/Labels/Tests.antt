-- ===== src/EventWindows/Labels/Tests.antt =====
-- A decision of the Federal Reserve and an inflation report in January 2024.
use regime_detection.Prelude.Int.{pos, negsuc, int_eq}
use regime_detection.Prelude.{
  event_calendar_fetch_error, ℕ, zero, suc, String, ◌≡◌, refl, none, List, [], ◌∷◌, ◌++◌, nat_eq,
  string_eq, bool_eq, contains, any, All, some, some_inner, arith, ok, err,
}
use regime_detection.EventWindows.Dates.{Date}
use regime_detection.EventWindows.Expand.{Schedule}
use regime_detection.EventWindows.Labels.{
  ScheduledEvent, EventLabelResolution, matching_events, matching_scheduled_event_labels,
  resolve_event_label,
}
use regime_detection.EventWindows.Labels.First.{Resolves, resolve_event_label-IsFirst}
use regime_detection.EventWindows.Labels.Given.{IsRegular, is_labelled_by}
use regime_detection.EventWindows.Labels.Scheduled.{
  matching_scheduled_event_labels-IsAny, resolve_event_label_holiday_event,
}

-- Every day from the 2nd to the 30th of January 2024 is a session.
abbrev days_from : ℕ → ℕ → List ℕ
days_from first zero = []
days_from first (suc n) = first ∷ days_from (suc first) n

abbrev january : Schedule
january start end = days_from 738_887 29

abbrev as_of : Date
as_of = record { year = 2_024; month = 1; day = 11 }

abbrev event_of : ℕ → String → ScheduledEvent
event_of day type = record { date = day; market = "US"; event_type = type; window_days = none }

abbrev events : List ScheduledEvent
events = event_of 738_895 "CPI" ∷ event_of 738_898 "FOMC" ∷ []

abbrev resolved : EventLabelResolution
resolved = record {
  matching_labels = "fed_week" ∷ "cpi_week" ∷ "earnings_season" ∷ [];
  primary_label = "fed_week";
}

is_resolved : resolve_event_label january as_of events ≡ ok resolved
unfolding resolve_event_label
is_resolved = refl

resolve_event_label-IsFirst_example :
    (matching : List String) × (matching_events january as_of events ≡ ok matching)
    × Resolves matching resolved
resolve_event_label-IsFirst_example =
    resolve_event_label-IsFirst january as_of events resolved is_resolved

-- A report whose own window is the two sessions before it, which the date is not in, and a decision of
-- a market that is not read.
abbrev more_events : List ScheduledEvent
more_events =
    record (event_of 738_899 "CPI") { window_days = some (negsuc 1, negsuc 0) }
    ∷ record (event_of 738_896 "budget") { market = "IN" }
    ∷ events

scheduled :
    matching_scheduled_event_labels january 738_896 more_events ≡ ok ("cpi_week" ∷ "fed_week" ∷ [])
unfolding matching_scheduled_event_labels
scheduled = refl

january-IsRegular : (day : ℕ) (type : String) → IsRegular january (event_of day type)
january-IsRegular day type = record { ascending = ground arith; backward = λ own h. cc }

more_events-IsRegular : All (IsRegular january) more_events
more_events-IsRegular = (
  record { ascending = ground arith; backward = λ own h. rw (← some_inner h) (refl, omega arith) },
  (
    record { ascending = ground arith; backward = λ own h. cc },
    (january-IsRegular 738_895 "CPI", (january-IsRegular 738_898 "FOMC", tt)),
  ),
)

matching_scheduled_event_labels-IsAny_example :
    contains {A = String} ("cpi_week" ∷ "fed_week" ∷ []) "fed_week"
    ≡ any (is_labelled_by january 738_896 "fed_week") more_events
matching_scheduled_event_labels-IsAny_example =
    matching_scheduled_event_labels-IsAny january 738_896 more_events ("cpi_week" ∷ "fed_week" ∷ [])
      "fed_week" more_events-IsRegular scheduled

-- New year's day has no session.
resolve_event_label_holiday_event_example :
    resolve_event_label january as_of (events ++ (event_of 738_886 "CPI" ∷ []))
    ≡ err event_calendar_fetch_error
resolve_event_label_holiday_event_example =
    resolve_event_label_holiday_event january as_of events [] (event_of 738_886 "CPI")
      (record { label = "cpi_week"; lookback_days = 1; lookahead_days = pos 1 }) refl refl
