-- ===== src/Strategy/Response/Sizes.antt =====
-- The position size of each scenario of strategy_response.py is a number and at most 1.0.
use regime_detection.Prelude.Int.{pos, leb_ℤ, int_eq}
use regime_detection.Prelude.{
  ℕ, String, ◌≡◌, refl, Bool, true, false, if◌then◌else◌, ◌==◌, nat_eq, string_eq, bool_eq,
}
use regime_detection.Float.{Float, IsFloat, minf}
use regime_detection.Float.Order.{minf-le}
use regime_detection.Strategy.{StrategyResponse}
use regime_detection.Strategy.Response.{
  RegimeLabels, hundredths, scenario_response, bull_healthy_low_vol, recovery_attempt,
  sideways_chop, bull_fragile, transition_weakening, transition_warning, high_transition_risk,
  sideways_stress, bear_stress, crisis_stress,
}

module _ {F : Type 0} ⦃f : Float F⦄ where
  -- The size is a number and at most the bound.
  abbrev pub SizeWithin : F → StrategyResponse F → Type 0
  SizeWithin bound r =
      (f.le r.position_size_multiplier bound ≡ true) × (f.is_nan r.position_size_multiplier ≡ false)

module _ {F : Type 0} ⦃f : Float F⦄ (laws : IsFloat F) where
  open laws use {le_trans, dec_number, dec_le}

  pub literal-SizeWithin :
      (n : ℕ)
      → leb_ℤ (pos n) (pos 100) ≡ true
      → (f.le (hundredths n) (hundredths 100) ≡ true) × (f.is_nan (hundredths n) ≡ false)
  literal-SizeWithin n h = (dec_le (pos n) (pos 100) 2 h, dec_number (pos n) 2)

  min-SizeWithin :
      (x : F) (n : ℕ)
      → (f.le x (hundredths 100) ≡ true) × (f.is_nan x ≡ false)
      → (f.le (minf x (hundredths n)) (hundredths 100) ≡ true)
        × (f.is_nan (minf x (hundredths n)) ≡ false)
  min-SizeWithin x n (le, number) =
      let (below, still) = minf-le laws x (hundredths n) number in (le_trans _ _ _ below le, still)

  -- A conditional update is within the bound where both of its branches are.
  pub choose-SizeWithin :
      (b : Bool) (x y : StrategyResponse F)
      → SizeWithin {F = F} (hundredths 100) x
      → SizeWithin {F = F} (hundredths 100) y
      → SizeWithin {F = F} (hundredths 100) (if b then x else y)
  choose-SizeWithin true x y p q = p
  choose-SizeWithin false x y p q = q

  recovery_attempt-SizeWithin :
      (state : String) (r : StrategyResponse F)
      → SizeWithin {F = F} (hundredths 100) r
      → SizeWithin {F = F} (hundredths 100) (recovery_attempt state r)
  unfolding recovery_attempt
  recovery_attempt-SizeWithin state r h =
      choose-SizeWithin (state == "recovery_attempt") _ r (literal-SizeWithin 50 refl) h

  bull_fragile-SizeWithin :
      (state : String) (r : StrategyResponse F)
      → SizeWithin {F = F} (hundredths 100) r
      → SizeWithin {F = F} (hundredths 100) (bull_fragile state r)
  unfolding bull_fragile
  bull_fragile-SizeWithin state r h =
      choose-SizeWithin (state == "fragile_bull") _ r (literal-SizeWithin 50 refl) h

  sideways_stress-SizeWithin :
      (state : String) (r : StrategyResponse F)
      → SizeWithin {F = F} (hundredths 100) r
      → SizeWithin {F = F} (hundredths 100) (sideways_stress state r)
  unfolding sideways_stress
  sideways_stress-SizeWithin state r h =
      choose-SizeWithin (state == "watch") _ r (literal-SizeWithin 50 refl) h

  bear_stress-SizeWithin :
      (state : String) (r : StrategyResponse F)
      → SizeWithin {F = F} (hundredths 100) r
      → SizeWithin {F = F} (hundredths 100) (bear_stress state r)
  unfolding bear_stress
  bear_stress-SizeWithin state r h =
      choose-SizeWithin (state == "bear_stress") _ r (literal-SizeWithin 50 refl) h

  crisis_stress-SizeWithin :
      (state : String) (r : StrategyResponse F)
      → SizeWithin {F = F} (hundredths 100) r
      → SizeWithin {F = F} (hundredths 100) (crisis_stress state r)
  unfolding crisis_stress
  crisis_stress-SizeWithin state r h =
      choose-SizeWithin (state == "crisis") _ r (literal-SizeWithin 25 refl) h

  transition_weakening-SizeWithin :
      (state : String) (r : StrategyResponse F)
      → SizeWithin {F = F} (hundredths 100) r
      → SizeWithin {F = F} (hundredths 100) (transition_weakening state r)
  unfolding transition_weakening
  transition_weakening-SizeWithin state r h =
      choose-SizeWithin (state == "weakening") _ r (min-SizeWithin r.position_size_multiplier 75 h)
        h

  transition_warning-SizeWithin :
      (state : String) (r : StrategyResponse F)
      → SizeWithin {F = F} (hundredths 100) r
      → SizeWithin {F = F} (hundredths 100) (transition_warning state r)
  unfolding transition_warning
  transition_warning-SizeWithin state r h =
      choose-SizeWithin (state == "transition_warning") _ r
        (min-SizeWithin r.position_size_multiplier 75 h) h

  high_transition_risk-SizeWithin :
      (state : String) (r : StrategyResponse F)
      → SizeWithin {F = F} (hundredths 100) r
      → SizeWithin {F = F} (hundredths 100) (high_transition_risk state r)
  unfolding high_transition_risk
  high_transition_risk-SizeWithin state r h =
      choose-SizeWithin (state == "high_transition_risk") _ r
        (min-SizeWithin r.position_size_multiplier 50 h) h

  pub scenario_response-SizeWithin :
      (l : RegimeLabels) (state : String)
      → SizeWithin {F = F} (hundredths 100) (scenario_response l state)
  unfolding scenario_response bull_healthy_low_vol sideways_chop
  scenario_response-SizeWithin l state = crisis_stress-SizeWithin state _ (
      bear_stress-SizeWithin state _ (
        sideways_stress-SizeWithin state _ (
          high_transition_risk-SizeWithin state _ (
            transition_warning-SizeWithin state _ (
              transition_weakening-SizeWithin state _ (
                bull_fragile-SizeWithin state _ (
                  choose-SizeWithin _ _ _ (literal-SizeWithin 75 refl) (
                    recovery_attempt-SizeWithin state _ (
                      choose-SizeWithin _ _ _ (literal-SizeWithin 100 refl)
                        (literal-SizeWithin 100 refl))))))))))
