-- ===== src/EventCalendar/Tests.antt =====
-- Ten sessions with a decision of the Federal Reserve on the sixth.
use regime_detection.Prelude.Int.{pos, negsuc, ◌+ℤ◌, int_eq}
use regime_detection.Prelude.{
  ℕ, String, ◌≡◌, refl, true, false, none, some, List, [], ◌∷◌, ◌==◌, nat_eq, string_eq, bool_eq,
  arith, contains, any, value_error, ok, err,
}
use regime_detection.Prelude.Dict.{Dict, lookup}
use regime_detection.EventWindows.Labels.{
  EventLabelResolution, event_precedence, keep_labels, resolution_of,
}
use regime_detection.EventWindows.Expiry.Anchor.{Ascending}
use regime_detection.EventCalendar.{Almanac, EventRow, window_slice}
use regime_detection.EventCalendar.Compute.{
  EventCalendarConfig, compute_event_calendar_outputs, global_sessions, last_day,
}
use regime_detection.EventCalendar.Gives.{is_given_by, EndsInside}
use regime_detection.EventCalendar.Outputs.{compute_event_calendar_outputs-IsAny}

abbrev sessions : List ℕ
sessions =
    739_000 ∷ 739_001 ∷ 739_002 ∷ 739_003 ∷ 739_004 ∷ 739_005 ∷ 739_006 ∷ 739_007 ∷ 739_008
    ∷ 739_009 ∷ []

-- All days are of April 2024.
abbrev april : Almanac
april = record { year_of = λ d. 2_024; month_of = λ d. 4; sessions_between = λ start end. sessions }

abbrev config : EventCalendarConfig
config = record {
  allow_v2_event_labels = true;
  window_trading_days = (negsuc 1, pos 0);
  earnings_seasons = record { start_rule = "second_monday_of_april"; end_offset_days = 35 } ∷ [];
}

abbrev decision : EventRow
decision = record {
  date = 739_005;
  event_type = "FOMC";
  publication_date = 739_004;
  approved_label = none;
  window_days = none;
}

-- The decision labels two sessions around it, but none before its publication.
abbrev outputs : Dict ℕ EventLabelResolution
outputs =
    (739_003, resolution_of [])
    ∷ (739_004, resolution_of ("fed_week" ∷ []))
    ∷ (739_007, resolution_of ("fed_week" ∷ []))
    ∷ (739_008, resolution_of [])
    ∷ []

computed :
    compute_event_calendar_outputs april
      (record config { earnings_seasons = [] })
      (739_003 ∷ 739_004 ∷ 739_007 ∷ 739_008 ∷ [])
      (some (decision ∷ []))
    ≡ ok outputs
unfolding compute_event_calendar_outputs
computed = refl

in_season :
    compute_event_calendar_outputs april config (739_008 ∷ []) (some (decision ∷ []))
    ≡ ok ((739_008, resolution_of ("earnings_season" ∷ [])) ∷ [])
unfolding compute_event_calendar_outputs
in_season = refl

no_calendar : compute_event_calendar_outputs april config sessions none ≡ err value_error
unfolding compute_event_calendar_outputs
no_calendar = refl

no_sessions : compute_event_calendar_outputs april config [] none ≡ ok []
unfolding compute_event_calendar_outputs
no_sessions = refl

-- A decision with a window of its own, from the session before it to the second after it.
abbrev minutes : EventRow
minutes = record decision { window_days = some (negsuc 0, pos 2) }

abbrev asked : List ℕ
asked = 739_004 ∷ 739_007 ∷ 739_008 ∷ []

own_window_computed :
    compute_event_calendar_outputs april
      (record config { earnings_seasons = [] })
      (739_003 ∷ asked)
      (some (minutes ∷ []))
    ≡ ok outputs
unfolding compute_event_calendar_outputs
own_window_computed = refl

ascending : Ascending sessions
ascending = ground arith

minutes-EndsInside : EndsInside sessions minutes
unfolding ◌+ℤ◌
minutes-EndsInside = ground arith

compute_event_calendar_outputs-IsAny_example :
    (mask : List String) × (lookup outputs 739_007
      ≡ some (resolution_of (keep_labels (contains mask) event_precedence)))
    × ((k : String)
        → ("expiry_week" == k) ≡ false
        → ("earnings_season" == k) ≡ false
        → contains mask k
          ≡ any
              (is_given_by true
                (global_sessions april 739_003 (last_day 739_003 asked) (minutes ∷ []))
                7
                739_007
                k)
              (minutes ∷ []))
unfolding global_sessions
compute_event_calendar_outputs-IsAny_example =
    compute_event_calendar_outputs-IsAny april (record config { earnings_seasons = [] }) 739_003
      asked (minutes ∷ []) outputs 7 739_007 own_window_computed refl ascending refl
      (minutes-EndsInside, tt)

-- A window that ends before the first session takes nearly all sessions, the bound of the slice being
-- negative: three to two sessions before the second.
wraps :
    window_slice sessions 1 (negsuc 3, negsuc 2)
    ≡ 739_000 ∷ 739_001 ∷ 739_002 ∷ 739_003 ∷ 739_004 ∷ 739_005 ∷ 739_006 ∷ 739_007 ∷ 739_008 ∷ []
unfolding window_slice
wraps = refl
