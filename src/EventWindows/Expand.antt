-- ===== src/EventWindows/Expand.antt =====
-- Windows of sessions around a date: `expand_trading_day_window` of
-- src/regime_data_fetch/expiry_calendar.py and `expand_nyse_window_for_scheduled_event` of
-- event_calendar_windows.py. Dates are day ordinals, two weeks or more from the ends of datetime's
-- range; the schedule of the exchange comes from pandas_market_calendars.
pub mod Around
pub mod Slices
mod Tests
use regime_detection.Prelude.Int.{ℤ, pos, negsuc, ◌+ℤ◌, leb_ℤ, int_eq}
use regime_detection.Prelude.{
  event_calendar_fetch_error, ℕ, suc, ◌+◌, ◌-◌, ◌||◌, Option, none, some, List, [], ◌∷◌, ltb,
  if◌then◌else◌, ◌==◌, nat_eq, string_eq, bool_eq, length, take, drop, Error, runtime_error, Result,
  ok, err, ◌>>=◌, ◌>>◌, raise_if,
}

-- The sessions between two dates.
abbrev pub Schedule : Type 0
Schedule = ℕ → ℕ → List ℕ

-- `days.index(day)`
abbrev pub index_of : List ℕ → ℕ → Option ℕ
index_of [] day = none
index_of (d ∷ ds) day =
    let later = index_of ds day in
    if d == day then some 0 else elim later [ none ↦ none | some i ↦ some (suc i) ]

-- A bound of a slice: a negative one counts from the end.
abbrev pub slice_bound : ℕ → ℤ → ℕ
slice_bound size (pos n) = n
slice_bound size (negsuc n) = size - suc n

-- `days[start:stop]`
abbrev pub slice : List ℕ → ℕ → ℤ → List ℕ
slice days start stop = take (slice_bound (length days) stop - start) (drop start days)

-- The window once the index of the anchor is known.
unfoldable pub window_at : Error → List ℕ → ℕ → ℤ → Option ℕ → Result (List ℕ)
unfolding ◌+ℤ◌
window_at raised days lookback lookahead none = err raised
window_at raised days lookback lookahead (some anchor_idx) = do
  let window_end = pos anchor_idx +ℤ lookahead
  raise_if (ltb anchor_idx lookback || leb_ℤ (pos (length days)) window_end) raised
  ok (slice days (anchor_idx - lookback) (window_end +ℤ pos 1))

unfoldable pub expand_trading_day_window : Schedule → ℕ → ℕ → ℤ → Result (List ℕ)
unfolding window_at
expand_trading_day_window schedule anchor lookback lookahead =
    let trading_days = schedule (anchor - 14) (anchor + 14) in
    window_at runtime_error trading_days lookback lookahead (index_of trading_days anchor)

unfoldable pub expand_nyse_window_for_scheduled_event : Schedule → ℕ → ℕ → ℤ → Result (List ℕ)
unfolding window_at
expand_nyse_window_for_scheduled_event schedule anchor lookback lookahead =
    let trading_days = schedule (anchor - 14) (anchor + 14) in
    window_at event_calendar_fetch_error trading_days lookback lookahead
      (index_of trading_days anchor)
