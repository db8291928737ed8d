-- ===== src/Rules/TrendDirection/Tests.antt =====
-- Trend direction labels on fixed-point numbers.
use regime_detection.Prelude.Int.{pos, int_eq}
use regime_detection.Prelude.{
  ℕ, ◌≡◌, refl, none, some, List, [], ◌∷◌, map, nat_eq, string_eq, bool_eq, ok, err, key_error,
}
use regime_detection.Float.{Fixed, fixed_float}
use regime_detection.DataQuality.{Series}
use regime_detection.Rules.TrendDirection.{
  TrendRow, TrendDirectionV2Features, TrendDirectionV2RulesConfig, closes, trend_raw_label,
  evaluate_recovery, evaluate_euphoria, evaluate_v2_trend_label, resolve_trend_label, resolve_rows,
  build_trend_labels,
}
use regime_detection.Rules.TrendDirection.Precedence.{
  Aligned, label_of, build_trend_labels-eq-first,
}

abbrev hundredths : ℕ → Fixed
hundredths n = fixed_float.dec (pos n) 2

abbrev minus : ℕ → Fixed
minus n = fixed_float.neg (hundredths n)

-- A session below both averages, which have crossed.
abbrev falling : ℕ → TrendRow Fixed
falling day = record {
  day = day;
  close = hundredths 9_000;
  sma_50 = hundredths 9_500;
  sma_200 = hundredths 10_000;
  return_63d = minus 10;
}

-- Three sessions: the close recovers above the short average, and there is no history on the last.
abbrev rows : List (TrendRow Fixed)
rows =
    falling 1
    ∷ record (falling 2) { close = hundredths 9_600 }
    ∷ record (falling 3) { return_63d = fixed_float.nan }
    ∷ []

abbrev every_day : Fixed → Series Fixed
every_day value = (1, value) ∷ (2, value) ∷ (3, value) ∷ []

abbrev config : TrendDirectionV2RulesConfig Fixed
config = record {
  recovery_drawdown_threshold = minus 15;
  recovery_return_threshold = hundredths 10;
  euphoria_return_126d_threshold = hundredths 20;
  euphoria_sentiment_threshold = hundredths 2_000;
  euphoria_vol_rising_lookback_sessions = 2;
}

abbrev features : TrendDirectionV2Features Fixed
features = record {
  return_63d = every_day (hundredths 12);
  return_126d = every_day (hundredths 25);
  drawdown_252d = every_day (minus 20);
  sma_50 = every_day (hundredths 9_500);
  sma_200 = every_day (hundredths 8_500);
  realized_vol_21d = (1, hundredths 10) ∷ (2, hundredths 12) ∷ (3, hundredths 14) ∷ [];
  sentiment_score = some (every_day (hundredths 2_500));
}

v1_run : build_trend_labels none rows ≡ ok ("bear" ∷ "transition" ∷ "unknown" ∷ [])
unfolding build_trend_labels resolve_rows resolve_trend_label trend_raw_label
v1_run = refl

-- Euphoria needs two sessions of volatility before it.
v2_run :
    build_trend_labels (some (features, config)) rows ≡ ok ("bear" ∷ "recovery" ∷ "euphoria" ∷ [])
unfolding build_trend_labels resolve_rows resolve_trend_label trend_raw_label
    evaluate_v2_trend_label evaluate_euphoria evaluate_recovery
v2_run = refl

-- A return that is missing on a day of the drawdowns fails the run.
missing_run :
    build_trend_labels (some (record features { return_63d = [] }, config)) rows ≡ err key_error
unfolding build_trend_labels resolve_rows resolve_trend_label trend_raw_label
    evaluate_v2_trend_label evaluate_euphoria evaluate_recovery
missing_run = refl

features-Aligned : Aligned features
features-Aligned = record { returns = refl; averages = refl }

build_trend_labels-eq-first_example :
    build_trend_labels (some (features, config)) rows
    ≡ ok (map (label_of features config (closes rows)) rows)
build_trend_labels-eq-first_example =
    build_trend_labels-eq-first features config rows features-Aligned
