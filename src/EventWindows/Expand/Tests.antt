-- ===== src/EventWindows/Expand/Tests.antt =====
-- A window of one session before the anchor and one after it.
use regime_detection.Prelude.Int.{pos, int_eq}
use regime_detection.Prelude.{
  ℕ, ◌≡◌, refl, [], ◌∷◌, nat_eq, string_eq, bool_eq, runtime_error, ok, err,
}
use regime_detection.EventWindows.Expand.{
  event_calendar_fetch_error, Schedule, expand_trading_day_window,
  expand_nyse_window_for_scheduled_event,
}
use regime_detection.EventWindows.Expand.Around.{around, expand_around, expand_absent}

-- Sessions are 20, 22 and every day from 24 on to the end.
abbrev exchange : Schedule
exchange start end = 20 ∷ 22 ∷ 24 ∷ 25 ∷ []

abbrev anchor : ℕ
anchor = 24

asked : expand_trading_day_window exchange anchor 2 (pos 1) ≡ ok (20 ∷ 22 ∷ 24 ∷ 25 ∷ [])
unfolding expand_trading_day_window
asked = refl

too_long : expand_trading_day_window exchange anchor 2 (pos 2) ≡ err runtime_error
unfolding expand_trading_day_window
too_long = refl

not_a_session :
    (expand_trading_day_window exchange 23 0 (pos 0) ≡ err runtime_error)
    × (expand_nyse_window_for_scheduled_event exchange 23 0 (pos 0)
        ≡ err event_calendar_fetch_error)
not_a_session = expand_absent exchange 23 0 (pos 0) refl

expand_around_example :
    (expand_trading_day_window exchange anchor 1 (pos 1)
      ≡ around runtime_error (20 ∷ 22 ∷ []) anchor (25 ∷ []) 1 1)
    × (expand_nyse_window_for_scheduled_event exchange anchor 1 (pos 1)
        ≡ around event_calendar_fetch_error (20 ∷ 22 ∷ []) anchor (25 ∷ []) 1 1)
expand_around_example = expand_around exchange anchor 1 1 (20 ∷ 22 ∷ []) (25 ∷ []) refl refl
