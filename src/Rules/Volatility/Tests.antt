-- ===== src/Rules/Volatility/Tests.antt =====
-- Volatility labels on fixed-point numbers.
use regime_detection.Prelude.Int.{pos, int_eq}
use regime_detection.Prelude.{ℕ, ◌≡◌, refl, true, some, [], ◌∷◌, nat_eq, string_eq, bool_eq, ok}
use regime_detection.Float.{Fixed, fixed_float}
use regime_detection.Rules.Volatility.{
  VolatilityRow, VolatilityV2Features, VolatilityV2RulesConfig, raw_label, evaluate_rising_vol,
  evaluate_vol_crush, evaluate_v2_volatility_label, resolve_label, build_raw_labels,
}

abbrev hundredths : ℕ → Fixed
hundredths n = fixed_float.dec (pos n) 2

abbrev minus : ℕ → Fixed
minus n = fixed_float.neg (hundredths n)

abbrev calm : VolatilityRow Fixed
calm = record {
  day = 5;
  return_1d = hundredths 1;
  return_5d = hundredths 1;
  return_21d = hundredths 2;
  realized_vol_percentile_252d = hundredths 85;
  vix_percentile_252d = fixed_float.nan;
}

abbrev config : VolatilityV2RulesConfig Fixed
config = record {
  atr_ratio_threshold = hundredths 115;
  realized_vol_ratio_threshold = hundredths 125;
  vol_crush_realized_vol_ratio_threshold = hundredths 75;
  vol_crush_implied_vol_change_threshold = minus 20;
}

abbrev features : VolatilityV2Features Fixed
features = record {
  atr_ratio = (5, hundredths 120) ∷ [];
  realized_vol_short = (5, hundredths 10) ∷ [];
  realized_vol_long = (5, hundredths 20) ∷ [];
  realized_vol_21d = (5, hundredths 20) ∷ [];
  implied_vol_5d_change = some ((5, minus 25) ∷ []);
  event_window_just_passed = some ((5, true) ∷ []);
}

-- A crash outranks the crush; a row without a feature is unknown.
labels_run :
    build_raw_labels (some (features, config)) (record calm { return_1d = minus 6 } ∷ calm ∷ [])
    ≡ ok ("crisis_vol" ∷ "vol_crush" ∷ [])
unfolding build_raw_labels resolve_label raw_label evaluate_v2_volatility_label evaluate_vol_crush
    evaluate_rising_vol
labels_run = refl

rising_read : evaluate_rising_vol features 5 config ≡ ok true
unfolding evaluate_rising_vol
rising_read = refl

calm_label : resolve_label (some (features, config)) calm ≡ ok "vol_crush"
unfolding resolve_label raw_label evaluate_v2_volatility_label evaluate_vol_crush
    evaluate_rising_vol
calm_label = refl
