-- ===== src/Rules/MonetaryPressure/Tests.antt =====
-- Monetary labels on fixed-point numbers.
use regime_detection.Prelude.Int.{pos, int_eq}
use regime_detection.Prelude.{ℕ, ◌≡◌, refl, none, [], ◌∷◌, nat_eq, string_eq, bool_eq}
use regime_detection.Float.{Fixed, fixed_float}
use regime_detection.Rules.{scalar_at}
use regime_detection.Rules.MonetaryPressure.{
  MonetaryPressureRuleInputs, MonetaryPressureV2RulesConfig, build_rule_inputs_for_date,
}

abbrev tenths : ℕ → Fixed
tenths n = fixed_float.dec (pos n) 1

abbrev config : MonetaryPressureV2RulesConfig Fixed
config = record {
  tightening_pressure_zscore_threshold = tenths 15;
  easing_pressure_zscore_threshold = fixed_float.neg (tenths 15);
  rate_shock_zscore_threshold = tenths 20;
}

-- A 2-year yield that rises while the 10-year one falls.
abbrev inputs : MonetaryPressureRuleInputs Fixed
inputs = record {
  zscore_2y_63d = tenths 18;
  zscore_10y_63d = fixed_float.neg (tenths 17);
  broad_usd_zscore_63d = tenths 0;
  zscore_21d_2y = fixed_float.neg (tenths 10);
  zscore_21d_10y = tenths 20;
}

-- On a day that a series does not have, its input is NaN.
absent_day :
    (build_rule_inputs_for_date {F = Fixed}
      (record {
        yield_change_zscore_2y_63d = (7, tenths 18) ∷ [];
        yield_change_zscore_10y_63d = (7, tenths 18) ∷ [];
        broad_usd_index_zscore_63d = (6, tenths 18) ∷ [];
        yield_change_zscore_21d_2y = (7, tenths 18) ∷ [];
        yield_change_zscore_21d_10y = (7, tenths 18) ∷ [];
      })
      7).broad_usd_zscore_63d
    ≡ none
unfolding build_rule_inputs_for_date scalar_at
absent_day = refl
