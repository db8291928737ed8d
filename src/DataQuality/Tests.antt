-- ===== src/DataQuality/Tests.antt =====
-- Assessments of small series, and the theorems there.
use regime_detection.Prelude.Int.{pos, int_eq}
use regime_detection.Prelude.{
  ℕ, ◌≡◌, refl, ◌↔◌, false, none, some, List, [], ◌∷◌, ◌++◌, arith, nat_eq, string_eq, ok,
}
use regime_detection.Float.{Fixed, fixed_float}
use regime_detection.Calendar.{Exchange, nyse_sessions_between}
use regime_detection.DataQuality.{
  Series, QualityRequest, assess_series_input_quality, quality_forces_unknown, DataQuality,
  ok_status, stale_data,
}
use regime_detection.DataQuality.Paths.{
  window_of, slow_window, sort_index, insert_row, loc_to, window_of-eq-slow_window,
}
use regime_detection.DataQuality.Prefix.{extend, known, assess_no_lookahead}
use regime_detection.DataQuality.Usable.{IsUsable, windows, assess-IsUsable_iff}

-- One year, with a session on every day from 1 to 12.
abbrev days : List ℕ
days = 1 ∷ 2 ∷ 3 ∷ 4 ∷ 5 ∷ 6 ∷ 7 ∷ 8 ∷ 9 ∷ 10 ∷ 11 ∷ 12 ∷ []

abbrev exchange : Exchange
exchange = record { year_of = λ d. 0; schedule = λ y. days }

abbrev one : Fixed
one = some (pos 100_000_000)

abbrev series : Series Fixed
series = (6, one) ∷ (7, one) ∷ (8, none) ∷ (9, one) ∷ []

abbrev request : ℕ → QualityRequest Fixed
request day = record {
  as_of_date = day;
  required_trading_days = 4;
  raw_label = some "calm";
  max_freshness_days = 2;
  min_completeness = fixed_float.dec (pos 75) 2;
  skip_raw_label_short_circuit = false;
}

abbrev usable_quality : DataQuality Fixed
usable_quality = record {
  status = ok_status;
  freshness_days = some 1;
  completeness = some (some (pos 75_000_000));
  reason = none;
}

usable_at_10 : assess_series_input_quality exchange (request 10) (series ∷ []) ≡ ok usable_quality
unfolding assess_series_input_quality nyse_sessions_between
usable_at_10 = refl

stale_at_12 :
    assess_series_input_quality exchange (request 12) (series ∷ [])
    ≡ ok (record {
      status = stale_data;
      freshness_days = some 3;
      completeness = some (some (pos 75_000_000));
      reason = some "stale_data";
    })
unfolding assess_series_input_quality nyse_sessions_between
stale_at_12 = refl

assess_no_lookahead_example :
    assess_series_input_quality exchange (request 10) ((series ++ ((11, one) ∷ [])) ∷ [])
    ≡ assess_series_input_quality exchange (request 10) (series ∷ [])
unfolding extend known
assess_no_lookahead_example =
    assess_no_lookahead exchange (request 10) ((series, (11, one) ∷ []) ∷ [])
      ((omega arith, tt), tt)

assess-IsUsable_iff_example :
    (quality_forces_unknown usable_quality ≡ false)
    ↔ IsUsable exchange (request 10) (windows (request 10) (series ∷ []))
assess-IsUsable_iff_example =
    assess-IsUsable_iff exchange (request 10) (series ∷ []) usable_quality usable_at_10

-- The rows of a series that is not in the order of its days.
abbrev shuffled : Series Fixed
shuffled = (9, one) ∷ (6, one) ∷ (8, none) ∷ (7, one) ∷ []

sorted_window : window_of shuffled 8 2 ≡ (7, one) ∷ (8, none) ∷ []
unfolding window_of slow_window sort_index insert_row loc_to
sorted_window = refl

window_of-eq-slow_window_example : window_of series 8 2 ≡ slow_window series 8 2
window_of-eq-slow_window_example = window_of-eq-slow_window series 8 2
