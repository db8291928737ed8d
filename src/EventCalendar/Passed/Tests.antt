-- ===== src/EventCalendar/Passed/Tests.antt =====
-- The sessions after a decision, whose window closes two sessions after it.
use regime_detection.Prelude.Int.{int_eq}
use regime_detection.Prelude.{
  ◌≡◌, refl, true, false, none, some, [], ◌∷◌, arith, nat_eq, string_eq, bool_eq, any, value_error,
  ok, err,
}
use regime_detection.Prelude.Dict.{lookup}
use regime_detection.EventWindows.Expiry.Anchor.{Ascending}
use regime_detection.EventCalendar.{Almanac, EventRow}
use regime_detection.EventCalendar.Compute.{last_day}
use regime_detection.EventCalendar.Passed.{Flags, padded_sessions, compute_event_window_just_passed}
use regime_detection.EventCalendar.Passed.Window.{
  just_passed, compute_event_window_just_passed-IsAny,
}

abbrev almanac : Almanac
almanac = record {
  year_of = λ d. 1;
  month_of = λ d. 1;
  sessions_between = λ start end. 100 ∷ 101 ∷ 102 ∷ 103 ∷ 104 ∷ [];
}

abbrev decision : EventRow
decision = record {
  date = 100;
  event_type = "FOMC";
  publication_date = 90;
  approved_label = none;
  window_days = none;
}

abbrev flags : Flags
flags = (102, false) ∷ (103, true) ∷ (104, false) ∷ []

flagged :
    compute_event_window_just_passed almanac (some (decision ∷ [])) (102 ∷ 103 ∷ 104 ∷ []) 1
    ≡ ok flags
unfolding compute_event_window_just_passed
flagged = refl

empty_calendar : compute_event_window_just_passed almanac (some []) (102 ∷ []) 1 ≡ err value_error
unfolding compute_event_window_just_passed
empty_calendar = refl

ascending : Ascending (100 ∷ 101 ∷ 102 ∷ 103 ∷ 104 ∷ [])
ascending = (
  (omega arith, (omega arith, (omega arith, (omega arith, tt)))),
  (
    (omega arith, (omega arith, (omega arith, tt))),
    ((omega arith, (omega arith, tt)), ((omega arith, tt), (tt, tt))),
  ),
)

compute_event_window_just_passed-IsAny_example :
    lookup flags 103
    ≡ some (
        any
          (just_passed
            (padded_sessions almanac 102 (last_day 102 (103 ∷ 104 ∷ [])) decision [])
            1
            3
            103)
          (decision ∷ []))
compute_event_window_just_passed-IsAny_example =
    compute_event_window_just_passed-IsAny almanac decision [] 102 (103 ∷ 104 ∷ []) 1 3 103 flags
      flagged refl ascending refl
