-- ===== src/Rules/Breadth/Tests.antt =====
-- Breadth labels on fixed-point numbers.
use regime_detection.Prelude.Int.{pos, int_eq}
use regime_detection.Prelude.{ℕ, ◌≡◌, refl, some, [], ◌∷◌, nat_eq, string_eq, bool_eq}
use regime_detection.Float.{Fixed, fixed_float}
use regime_detection.Rules.Breadth.{
  BreadthV2, raw_label, resolve_day, resolve_v2_raw_labels, evaluate_narrowing_breadth,
  evaluate_recovery_breadth, evaluate_broadening_breadth, evaluate_breadth_thrust,
  lookback_endpoint_values,
}
use regime_detection.Rules.Breadth.Lookahead.{
  LaterRows, AllAfter, extended, resolve_day_no_lookahead,
}

abbrev hundredths : ℕ → Fixed
hundredths n = fixed_float.dec (pos n) 2

abbrev inputs : BreadthV2 Fixed
inputs = record {
  pct_above_50dma = (1, hundredths 50) ∷ (2, hundredths 60) ∷ [];
  pct_above_200dma = (1, hundredths 50) ∷ (2, hundredths 40) ∷ [];
  nh_nl_ratio = (1, hundredths 30) ∷ (2, hundredths 35) ∷ [];
  ad_line_slope_20d = (1, hundredths 0) ∷ (2, hundredths 0) ∷ [];
  breadth_thrust = some ((1, hundredths 39) ∷ (2, hundredths 61) ∷ []);
  lookback_sessions = 1;
  nh_nl_threshold = hundredths 40;
}

abbrev later : LaterRows Fixed
later = record {
  pct_above_50dma = (3, hundredths 10) ∷ [];
  pct_above_200dma = (3, hundredths 10) ∷ [];
  nh_nl_ratio = (3, hundredths 10) ∷ [];
  ad_line_slope_20d = (3, hundredths 10) ∷ [];
  breadth_thrust = (3, hundredths 90) ∷ [];
}

-- A slope of zero is a recovery, and does not replace a divergence; the thrust of day 3 does.
labels_run :
    resolve_v2_raw_labels (extended inputs later) (
      (1, "unknown")
      ∷ (2, "weak_breadth")
      ∷ (2, "divergent_fragile")
      ∷ (3, "divergent_fragile")
      ∷ [])
    ≡ "unknown" ∷ "recovery_breadth" ∷ "divergent_fragile" ∷ "breadth_thrust" ∷ []
unfolding resolve_v2_raw_labels resolve_day evaluate_narrowing_breadth evaluate_recovery_breadth
    evaluate_broadening_breadth evaluate_breadth_thrust lookback_endpoint_values
labels_run = refl

raw_runs :
    raw_label {F = Fixed} (record {
      relative_breadth_ratio = hundredths 40;
      relative_breadth_sma50 = hundredths 41;
      relative_breadth_return_20d = fixed_float.neg (hundredths 3);
      index_distance_from_63d_high = fixed_float.neg (hundredths 5);
    })
    ≡ "divergent_fragile"
unfolding raw_label
raw_runs = refl

later_after : AllAfter later 2
later_after = record {
  pct_above_50dma = refl;
  pct_above_200dma = refl;
  nh_nl_ratio = refl;
  ad_line_slope_20d = refl;
  breadth_thrust = refl;
}

resolve_day_no_lookahead_example :
    resolve_day (extended inputs later) 2 "weak_breadth" ≡ resolve_day inputs 2 "weak_breadth"
resolve_day_no_lookahead_example =
    resolve_day_no_lookahead inputs later 2 "weak_breadth" later_after
