-- ===== src/Rules/VolumeLiquidity/Tests.antt =====
-- Volume labels on fixed-point numbers.
use regime_detection.Prelude.Int.{pos, int_eq}
use regime_detection.Prelude.{ℕ, ◌≡◌, refl, true, none, nat_eq, string_eq, bool_eq}
use regime_detection.Float.{Fixed, fixed_float}
use regime_detection.Rules.VolumeLiquidity.{
  VolumeLiquidityRulesConfig, VolumeLiquidityRuleInputs, liquidity_gap_rule_path,
  evaluate_panic_volume, evaluate_normal_volume, evaluate_label, evaluate_rules_with_evidence,
}

abbrev hundredths : ℕ → Fixed
hundredths n = fixed_float.dec (pos n) 2

abbrev config : VolumeLiquidityRulesConfig Fixed
config = record {
  panic_volume_zscore_threshold = hundredths 200;
  panic_volume_return_threshold = fixed_float.neg (hundredths 2);
  liquidity_gap_frequency_percentile_threshold = hundredths 75;
  liquidity_gap_intraday_range_percentile_threshold = hundredths 75;
  cold_start_liquidity_gap_enabled = true;
  cold_start_liquidity_gap_frequency_20d_min = hundredths 30;
  cold_start_liquidity_gap_intraday_range_min = hundredths 4;
}

abbrev cold : VolumeLiquidityRuleInputs Fixed
cold = record {
  volume_zscore_20d = hundredths 50;
  return_1d = hundredths 1;
  gap_frequency_percentile_252d = fixed_float.nan;
  intraday_range_percentile_252d = hundredths 50;
  gap_frequency_20d = hundredths 35;
  intraday_range = hundredths 5;
}

-- While the history is short, severe raw levels give the label.
cold_start :
    evaluate_rules_with_evidence cold config
    ≡ record { label = "liquidity_gap_behavior"; rule_path = "cold_start_fallback"; reason = none }
unfolding evaluate_rules_with_evidence evaluate_label evaluate_panic_volume evaluate_normal_volume
    liquidity_gap_rule_path
cold_start = refl
