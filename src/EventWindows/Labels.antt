-- ===== src/EventWindows/Labels.antt =====
-- `resolve_event_label` of src/regime_data_fetch/event_calendar.py: the calendar label of a date from
-- the scheduled events, the options expiry and the earnings season. A set of labels is the list of
-- those added to it, which is only asked whether it has a label.
mod First
mod Covered
mod Given
mod Scheduled
mod Tests
use regime_detection.Prelude.Int.{ℤ, pos, pos_part, neg_part, int_eq}
use regime_detection.Prelude.{
  ℕ, ◌+◌, String, Bool, Option, none, some, List, [], ◌∷◌, ◌++◌, if◌then◌else◌, nat_eq, string_eq,
  bool_eq, contains, Result, ok, ◌>>=◌, ◌>>◌,
}
use regime_detection.Prelude.Dict.{Dict, lookup}
use regime_detection.EventWindows.Dates.{Date, to_ordinal}
use regime_detection.EventWindows.Expand.{
  Schedule, expand_trading_day_window, expand_nyse_window_for_scheduled_event,
}
use regime_detection.EventWindows.Expiry.{compute_monthly_options_expiry_anchor}
use regime_detection.EventWindows.Earnings.{is_in_earnings_season}

abbrev pub event_precedence : List String
event_precedence =
    "geopolitical_event" ∷ "election_window" ∷ "fed_week" ∷ "global_rate_decision" ∷ "budget_week"
    ∷ "cpi_week" ∷ "nfp_week" ∷ "expiry_week" ∷ "earnings_season" ∷ "normal_calendar" ∷ "unknown"
    ∷ []

pub record WindowSpec : Type 0 where
  pub label : String
  pub lookback_days : ℕ
  pub lookahead_days : ℤ

abbrev window_spec : String → ℕ → ℕ → WindowSpec
window_spec label back ahead = record {
  label = label;
  lookback_days = back;
  lookahead_days = pos ahead;
}

abbrev pub scheduled_event_windows : Dict String WindowSpec
scheduled_event_windows =
    ("FOMC", window_spec "fed_week" 2 2)
    ∷ ("CPI", window_spec "cpi_week" 1 1)
    ∷ ("NFP", window_spec "nfp_week" 1 1)
    ∷ ("budget", window_spec "budget_week" 0 0)
    ∷ ("election", window_spec "election_window" 5 10)
    ∷ ("geopolitical_event", window_spec "geopolitical_event" 0 0)
    ∷ ("global_rate_decision", window_spec "global_rate_decision" 0 0)
    ∷ ("ECB_decision", window_spec "global_rate_decision" 0 0)
    ∷ ("BOE_decision", window_spec "global_rate_decision" 0 0)
    ∷ ("BOJ_decision", window_spec "global_rate_decision" 0 0)
    ∷ []

-- The fields of an event that its label depends on; the date is a day ordinal.
pub record ScheduledEvent : Type 0 where
  pub date : ℕ
  pub market : String
  pub event_type : String
  pub window_days : Option (ℤ × ℤ)

pub record EventLabelResolution : Type 0 where
  pub matching_labels : List String
  pub primary_label : String

abbrev pub abs : ℤ → ℕ
abs n = pos_part n + neg_part n

-- The window that an event has of its own replaces that of its type.
abbrev pub own_window : Option (ℤ × ℤ) → WindowSpec → WindowSpec
own_window none spec = spec
own_window (some (start_offset, end_offset)) spec = record spec {
  lookback_days = abs start_offset;
  lookahead_days = end_offset;
}

abbrev pub spec_of : ScheduledEvent → Option WindowSpec
spec_of event =
    if contains ("US" ∷ "GLOBAL" ∷ []) event.market
    then lookup scheduled_event_windows event.event_type
    else none

-- What an event adds to the labels of a date.
unfoldable pub event_labels :
    Schedule → ℕ → ScheduledEvent → Option WindowSpec → Result (List String)
unfolding expand_nyse_window_for_scheduled_event
event_labels schedule as_of event none = ok []
event_labels schedule as_of event (some type_spec) = do
  let spec = own_window event.window_days type_spec
  window ←
      expand_nyse_window_for_scheduled_event schedule event.date spec.lookback_days
        spec.lookahead_days
  ok (if contains window as_of then spec.label ∷ [] else [])

unfoldable pub matching_scheduled_event_labels :
    Schedule → ℕ → List ScheduledEvent → Result (List String)
unfolding event_labels
matching_scheduled_event_labels schedule as_of [] = ok []
matching_scheduled_event_labels schedule as_of (event ∷ events) = do
  added ← event_labels schedule as_of event (spec_of event)
  labels ← matching_scheduled_event_labels schedule as_of events
  ok (added ++ labels)

-- `matching_events`
unfoldable pub matching_events : Schedule → Date → List ScheduledEvent → Result (List String)
unfolding to_ordinal matching_scheduled_event_labels compute_monthly_options_expiry_anchor
    expand_trading_day_window is_in_earnings_season
matching_events schedule as_of events = do
  scheduled ← matching_scheduled_event_labels schedule (to_ordinal as_of) events
  anchor ← compute_monthly_options_expiry_anchor schedule as_of.year as_of.month
  expiry_window ← expand_trading_day_window schedule anchor 2 (pos 0)
  in_season ← is_in_earnings_season as_of
  ok (
      scheduled
      ++ ((if contains expiry_window (to_ordinal as_of) then "expiry_week" ∷ [] else [])
          ++ (if in_season then "earnings_season" ∷ [] else [])))

abbrev pub keep_labels : (String → Bool) → List String → List String
keep_labels test [] = []
keep_labels test (l ∷ ls) = let rest = keep_labels test ls in if test l then l ∷ rest else rest

abbrev pub resolution_of : List String → EventLabelResolution
resolution_of [] = record {
  matching_labels = "normal_calendar" ∷ [];
  primary_label = "normal_calendar";
}
resolution_of (l ∷ ls) = record { matching_labels = l ∷ ls; primary_label = l }

unfoldable pub resolve_event_label :
    Schedule → Date → List ScheduledEvent → Result EventLabelResolution
unfolding matching_events
resolve_event_label schedule as_of events = do
  matching ← matching_events schedule as_of events
  ok (resolution_of (keep_labels (contains matching) event_precedence))
