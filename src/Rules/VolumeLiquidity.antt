-- ===== src/Rules/VolumeLiquidity.antt =====
-- src/regime_detection/volume_liquidity_rules.py and `VolumeLiquidityRulesConfig` of
-- _config_layer1.py. The evidence reports the label, the path that gave it and a reason.
mod Precedence
mod Tests
use regime_detection.Prelude.Dict.{get_from}
use regime_detection.Prelude.Int.{int_eq}
use regime_detection.Prelude.{
  is_set, String, Bool, true, false, not, ◌&&◌, ◌||◌, Option, none, some, List, [], ◌∷◌,
  if◌then◌else◌, ◌==◌, nat_eq, string_eq, bool_eq,
}
use regime_detection.Float.{Float, ltf, gtf, gef}

pub record VolumeLiquidityRulesConfig {ℓ} (F : Type ℓ) : Type ℓ where
  pub panic_volume_zscore_threshold : F
  pub panic_volume_return_threshold : F
  pub liquidity_gap_frequency_percentile_threshold : F
  pub liquidity_gap_intraday_range_percentile_threshold : F
  pub cold_start_liquidity_gap_enabled : Bool
  pub cold_start_liquidity_gap_frequency_20d_min : F
  pub cold_start_liquidity_gap_intraday_range_min : F

pub record VolumeLiquidityRuleInputs {ℓ} (F : Type ℓ) : Type ℓ where
  pub volume_zscore_20d : F
  pub return_1d : F
  pub gap_frequency_percentile_252d : F
  pub intraday_range_percentile_252d : F
  pub gap_frequency_20d : F
  pub intraday_range : F

pub record VolumeLiquidityRuleEvaluation : Type 0 where
  pub label : String
  pub rule_path : String
  pub reason : Option String

-- `RULE_PRECEDENCE`
abbrev pub rule_precedence : List String
rule_precedence = "panic_volume" ∷ "liquidity_gap_behavior" ∷ "normal_volume" ∷ []

module _ {ℓ} {F : Type ℓ} ⦃f : Float F⦄ where
  abbrev pub gap_history_unavailable : VolumeLiquidityRuleInputs F → Bool
  gap_history_unavailable i =
      f.is_nan i.gap_frequency_percentile_252d || f.is_nan i.intraday_range_percentile_252d

  unfoldable pub liquidity_gap_rule_path :
      VolumeLiquidityRuleInputs F → VolumeLiquidityRulesConfig F → Option String
  liquidity_gap_rule_path i config =
      if not (gap_history_unavailable i)
        && gtf i.gap_frequency_percentile_252d config.liquidity_gap_frequency_percentile_threshold
        && gtf i.intraday_range_percentile_252d
            config.liquidity_gap_intraday_range_percentile_threshold
      then some "percentile"
      else (if not config.cold_start_liquidity_gap_enabled
          then none
          else (if not (gap_history_unavailable i)
              then none
              else (if f.is_nan i.gap_frequency_20d || f.is_nan i.intraday_range
                  then none
                  else (if gef i.gap_frequency_20d config.cold_start_liquidity_gap_frequency_20d_min
                        && gef i.intraday_range config.cold_start_liquidity_gap_intraday_range_min
                      then some "cold_start_fallback"
                      else none))))

  unfoldable pub evaluate_panic_volume :
      VolumeLiquidityRuleInputs F → VolumeLiquidityRulesConfig F → Bool
  evaluate_panic_volume i config =
      if f.is_nan i.volume_zscore_20d || f.is_nan i.return_1d
      then false
      else (gtf i.volume_zscore_20d config.panic_volume_zscore_threshold
          && ltf i.return_1d config.panic_volume_return_threshold)

  unfoldable pub evaluate_liquidity_gap_behavior :
      VolumeLiquidityRuleInputs F → VolumeLiquidityRulesConfig F → Bool
  unfolding liquidity_gap_rule_path
  evaluate_liquidity_gap_behavior i config = is_set (liquidity_gap_rule_path i config)

  unfoldable pub evaluate_normal_volume :
      VolumeLiquidityRuleInputs F → VolumeLiquidityRulesConfig F → Bool
  unfolding evaluate_panic_volume evaluate_liquidity_gap_behavior
  evaluate_normal_volume i config =
      if f.is_nan i.volume_zscore_20d || f.is_nan i.return_1d || gap_history_unavailable i
      then false
      else (if evaluate_panic_volume i config
          then false
          else (if evaluate_liquidity_gap_behavior i config then false else true))

  -- One turn of the loop over the precedence list.
  unfoldable pub evaluate_label :
      VolumeLiquidityRuleInputs F
      → VolumeLiquidityRulesConfig F
      → String
      → Option VolumeLiquidityRuleEvaluation
  unfolding evaluate_panic_volume evaluate_normal_volume liquidity_gap_rule_path
  evaluate_label i config label =
      if label == "panic_volume"
      then (if evaluate_panic_volume i config
          then some (record { label = "panic_volume"; rule_path = "standard"; reason = none })
          else none)
      else (if label == "liquidity_gap_behavior"
          then with_path (liquidity_gap_rule_path i config)
          else (if label == "normal_volume"
              then (if evaluate_normal_volume i config
                  then some
                      (record { label = "normal_volume"; rule_path = "standard"; reason = none })
                  else none)
              else none))
    where
      with_path : Option String → Option VolumeLiquidityRuleEvaluation
      with_path none = none
      with_path (some path) =
          some (record { label = "liquidity_gap_behavior"; rule_path = path; reason = none })

  abbrev no_rule : VolumeLiquidityRuleInputs F → VolumeLiquidityRuleEvaluation
  no_rule i = record {
    label = "unknown";
    rule_path = "none";
    reason =
        some (if gap_history_unavailable i then "insufficient_gap_history" else "no_rule_fired");
  }

  abbrev walk_labels :
      VolumeLiquidityRuleInputs F
      → VolumeLiquidityRulesConfig F
      → List String
      → VolumeLiquidityRuleEvaluation
  walk_labels i config [] = no_rule i
  walk_labels i config (label ∷ labels) =
      let later = walk_labels i config labels in get_from (evaluate_label i config label) later

  unfoldable pub evaluate_rules_with_evidence :
      VolumeLiquidityRuleInputs F → VolumeLiquidityRulesConfig F → VolumeLiquidityRuleEvaluation
  unfolding evaluate_label
  evaluate_rules_with_evidence i config = walk_labels i config rule_precedence
