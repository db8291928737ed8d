-- ===== src/Rules/MonetaryPressure/Precedence.antt =====
-- The labels of the monetary axis and the rules that fire.
use regime_detection.Prelude.Int.{int_eq}
use regime_detection.Prelude.{
  test_if, same_if, min, String, ◌≡◌, refl, Bool, true, false, List, [], ◌∷◌, arith, if◌then◌else◌,
  ◌==◌, nat_eq, string_eq, bool_eq,
}
use regime_detection.Float.{Float}
use regime_detection.Rules.{rank_in, rank_if, if_test}
use regime_detection.Rules.MonetaryPressure.{
  MonetaryPressureRuleInputs, MonetaryPressureV2RulesConfig, inputs_nan, shock_fires,
  tightening_fires, easing_fires, evaluate_rules,
}

-- The documented precedence.
abbrev pub precedence : List String
precedence = "rate_shock" ∷ "tightening_pressure" ∷ "easing_pressure" ∷ "neutral_monetary" ∷ []

chain :
    (a b c : Bool)
    → rank_in precedence (
        if a
        then "rate_shock"
        else (if b
            then "tightening_pressure"
            else (if c then "easing_pressure" else "neutral_monetary")))
      ≡ min (rank_if precedence a "rate_shock") (
          min
            (rank_if precedence b "tightening_pressure")
            (min (rank_if precedence c "easing_pressure") 3))
chain true b c = omega arith
chain false true true = refl
chain false true false = refl
chain false false true = refl
chain false false false = refl

module _ (F : Type 0) ⦃f : Float F⦄ where
  -- The rules fail closed: the label is unknown exactly when one of the five inputs is NaN.
  pub evaluate_rules-IsUnknown_iff :
      (i : MonetaryPressureRuleInputs F) (config : MonetaryPressureV2RulesConfig F)
      → (evaluate_rules i config == "unknown") ≡ inputs_nan i
  unfolding evaluate_rules
  evaluate_rules-IsUnknown_iff i config = simp (test_if, same_if, if_test)

  -- Where no input is NaN, the label is the first one in the documented precedence among those whose
  -- rule fires and neutral_monetary.
  pub evaluate_rules_first :
      (i : MonetaryPressureRuleInputs F) (config : MonetaryPressureV2RulesConfig F)
      → inputs_nan i ≡ false
      → rank_in precedence (evaluate_rules i config)
        ≡ min (rank_if precedence (shock_fires i config) "rate_shock") (
            min
              (rank_if precedence (tightening_fires i config) "tightening_pressure")
              (min (rank_if precedence (easing_fires i config) "easing_pressure") 3))
  unfolding evaluate_rules
  evaluate_rules_first i config known =
      rw known (chain (shock_fires i config) (tightening_fires i config) (easing_fires i config))
