-- ===== src/Rules/MonetaryPressure.antt =====
-- src/regime_detection/monetary_pressure_rules.py and `MonetaryPressureV2RulesConfig` of
-- _config_layer2.py.
mod Precedence
mod Tests
use regime_detection.Prelude.{ℕ, String, Bool, ◌||◌, [], ◌∷◌, if◌then◌else◌}
use regime_detection.Float.{Float, ltf, gtf}
use regime_detection.DataQuality.{Series}
use regime_detection.Rules.{scalar_at, any_nan}

pub record MonetaryPressureV2RulesConfig {ℓ} (F : Type ℓ) : Type ℓ where
  pub tightening_pressure_zscore_threshold : F
  pub easing_pressure_zscore_threshold : F
  pub rate_shock_zscore_threshold : F

pub record MonetaryPressureRuleInputs {ℓ} (F : Type ℓ) : Type ℓ where
  pub zscore_2y_63d : F
  pub zscore_10y_63d : F
  pub broad_usd_zscore_63d : F
  pub zscore_21d_2y : F
  pub zscore_21d_10y : F

pub record MonetaryPressureV2Features {ℓ} (F : Type ℓ) : Type ℓ where
  pub yield_change_zscore_2y_63d : Series F
  pub yield_change_zscore_10y_63d : Series F
  pub broad_usd_index_zscore_63d : Series F
  pub yield_change_zscore_21d_2y : Series F
  pub yield_change_zscore_21d_10y : Series F

module _ {ℓ} {F : Type ℓ} ⦃f : Float F⦄ where
  unfoldable pub build_rule_inputs_for_date :
      MonetaryPressureV2Features F → ℕ → MonetaryPressureRuleInputs F
  unfolding scalar_at
  build_rule_inputs_for_date features dt = record {
    zscore_2y_63d = scalar_at features.yield_change_zscore_2y_63d dt;
    zscore_10y_63d = scalar_at features.yield_change_zscore_10y_63d dt;
    broad_usd_zscore_63d = scalar_at features.broad_usd_index_zscore_63d dt;
    zscore_21d_2y = scalar_at features.yield_change_zscore_21d_2y dt;
    zscore_21d_10y = scalar_at features.yield_change_zscore_21d_10y dt;
  }

  abbrev pub inputs_nan : MonetaryPressureRuleInputs F → Bool
  inputs_nan i = any_nan (
      i.zscore_2y_63d ∷ i.zscore_10y_63d ∷ i.broad_usd_zscore_63d ∷ i.zscore_21d_2y
      ∷ i.zscore_21d_10y ∷ [])

  abbrev pub shock_fires : MonetaryPressureRuleInputs F → MonetaryPressureV2RulesConfig F → Bool
  shock_fires i config =
      gtf (f.abs i.zscore_21d_2y) config.rate_shock_zscore_threshold
      || gtf (f.abs i.zscore_21d_10y) config.rate_shock_zscore_threshold

  abbrev pub tightening_fires :
      MonetaryPressureRuleInputs F → MonetaryPressureV2RulesConfig F → Bool
  tightening_fires i config =
      gtf i.zscore_2y_63d config.tightening_pressure_zscore_threshold
      || gtf i.zscore_10y_63d config.tightening_pressure_zscore_threshold
      || gtf i.broad_usd_zscore_63d config.tightening_pressure_zscore_threshold

  abbrev pub easing_fires : MonetaryPressureRuleInputs F → MonetaryPressureV2RulesConfig F → Bool
  easing_fires i config =
      ltf i.zscore_2y_63d config.easing_pressure_zscore_threshold
      || ltf i.zscore_10y_63d config.easing_pressure_zscore_threshold

  unfoldable pub evaluate_rules :
      MonetaryPressureRuleInputs F → MonetaryPressureV2RulesConfig F → String
  evaluate_rules i config =
      if inputs_nan i
      then "unknown"
      else (if shock_fires i config
          then "rate_shock"
          else (if tightening_fires i config
              then "tightening_pressure"
              else (if easing_fires i config then "easing_pressure" else "neutral_monetary")))
