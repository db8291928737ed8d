-- ===== src/Strategy/Response.antt =====
-- `build_strategy_response` of src/regime_detection/strategy_response.py. The
-- function's local variables are the response that it builds; each scenario is a function on it.
mod Events
mod Sizes
mod Scenarios
mod Tests
use regime_detection.Prelude.Dict.{Dict}
use regime_detection.Prelude.Int.{pos, int_eq}
use regime_detection.Prelude.{
  ℕ, String, Bool, true, false, not, ◌&&◌, ◌||◌, Option, none, some, List, [], ◌∷◌, ◌++◌,
  if◌then◌else◌, ◌==◌, nat_eq, string_eq, bool_eq, contains,
}
use regime_detection.Float.{Float, minf}
use regime_detection.Strategy.Actions.{
  StrategyEventModifierRule, EventActions, apply_event_calendar_modifiers,
}
use regime_detection.Strategy.{StrategyResponse}

-- The active labels of the four axes.
pub record RegimeLabels : Type 0 where
  pub trend_direction : String
  pub trend_character : String
  pub volatility_state : String
  pub breadth_state : String

abbrev pub is_unmapped : RegimeLabels → String → Bool
is_unmapped l state =
    state == "insufficient_data"
    || contains (l.trend_direction ∷ l.trend_character ∷ l.volatility_state ∷ l.breadth_state ∷ [])
        "unknown"

module _ {ℓ} {F : Type ℓ} ⦃f : Float F⦄ where
  -- The modifiers around the response: taken out of it and put back.
  abbrev pub actions_of : StrategyResponse F → EventActions F
  actions_of r = record {
    position_size_multiplier = r.position_size_multiplier;
    leverage_allowed = r.leverage_allowed;
    allow_leverage_expansion = r.allow_leverage_expansion;
    require_confirmation_for_new_longs = r.require_confirmation_for_new_longs;
    prefer_cash_or_hedges = r.prefer_cash_or_hedges;
    modifiers = r.modifiers_applied;
  }

  abbrev pub with_actions : EventActions F → StrategyResponse F → StrategyResponse F
  with_actions a r = record r {
    position_size_multiplier = a.position_size_multiplier;
    leverage_allowed = a.leverage_allowed;
    allow_leverage_expansion = a.allow_leverage_expansion;
    require_confirmation_for_new_longs = a.require_confirmation_for_new_longs;
    prefer_cash_or_hedges = a.prefer_cash_or_hedges;
    modifiers_applied = a.modifiers;
  }

  -- The literals 0.25, 0.5, 0.75 and 1.0, in hundredths.
  abbrev pub hundredths : ℕ → F
  hundredths n = f.dec (pos n) 2

  -- The response for unknown or unmapped regimes, before the event rules.
  abbrev pub unmapped_response : StrategyResponse F
  unmapped_response = record {
    position_size_multiplier = hundredths 75;
    allow_trend_following = true;
    allow_mean_reversion = true;
    leverage_allowed = false;
    allow_buy_dip = true;
    allow_breakout = true;
    allow_shorts = true;
    require_confirmation_for_new_longs = true;
    require_confirmation_for_shorts = true;
    log_for_review = true;
    modifiers_applied = [];
    hard_max_loss_required = none;
    block_weak_signals = none;
    prefer_cash_or_hedges = none;
    take_profit_faster = none;
    allow_leverage_expansion = none;
    require_breadth_confirmation = none;
    reason = some "unknown_or_unmapped_regime";
  }

  -- The initial values of the local variables.
  abbrev pub initial_response : StrategyResponse F
  initial_response = record unmapped_response {
    position_size_multiplier = hundredths 100;
    leverage_allowed = true;
    require_confirmation_for_new_longs = false;
    require_confirmation_for_shorts = false;
    log_for_review = false;
    reason = none;
  }

  abbrev applied : String → StrategyResponse F → List String
  applied name r = r.modifiers_applied ++ (name ∷ [])

  bull_healthy_low_vol : RegimeLabels → StrategyResponse F → StrategyResponse F
  bull_healthy_low_vol l r =
      if l.trend_direction == "bull"
        && contains ("trending" ∷ "transition" ∷ []) l.trend_character
        && contains ("low_vol" ∷ "normal_vol" ∷ []) l.volatility_state
        && l.breadth_state == "healthy_breadth"
      then record r {
        position_size_multiplier = hundredths 100;
        allow_trend_following = true;
        allow_buy_dip = true;
        allow_leverage_expansion = some true;
        modifiers_applied = applied "bull_healthy_low_vol" r;
      }
      else r

  recovery_attempt : String → StrategyResponse F → StrategyResponse F
  recovery_attempt state r =
      if state == "recovery_attempt"
      then record r {
        position_size_multiplier = hundredths 50;
        allow_trend_following = true;
        allow_buy_dip = true;
        leverage_allowed = false;
        require_breadth_confirmation = some true;
        allow_leverage_expansion = some false;
        modifiers_applied = applied "recovery_attempt" r;
      }
      else r

  sideways_chop : RegimeLabels → StrategyResponse F → StrategyResponse F
  sideways_chop l r =
      if l.trend_character == "chop" && not (l.volatility_state == "crisis_vol")
      then record r {
        allow_trend_following = false;
        allow_mean_reversion = true;
        position_size_multiplier = hundredths 75;
        take_profit_faster = some true;
        modifiers_applied = applied "sideways_chop" r;
      }
      else r

  bull_fragile : String → StrategyResponse F → StrategyResponse F
  bull_fragile state r =
      if state == "fragile_bull"
      then record r {
        position_size_multiplier = hundredths 50;
        allow_buy_dip = false;
        allow_leverage_expansion = some false;
        require_confirmation_for_new_longs = true;
        modifiers_applied = applied "bull_fragile" r;
      }
      else r

  transition_weakening : String → StrategyResponse F → StrategyResponse F
  transition_weakening state r =
      if state == "weakening"
      then record r {
        position_size_multiplier = minf r.position_size_multiplier (hundredths 75);
        allow_leverage_expansion = some false;
        require_confirmation_for_new_longs = true;
        modifiers_applied = applied "transition_weakening" r;
      }
      else r

  transition_warning : String → StrategyResponse F → StrategyResponse F
  transition_warning state r =
      if state == "transition_warning"
      then record r {
        position_size_multiplier = minf r.position_size_multiplier (hundredths 75);
        allow_leverage_expansion = some false;
        require_confirmation_for_new_longs = true;
        take_profit_faster = some true;
        modifiers_applied = applied "transition_warning" r;
      }
      else r

  high_transition_risk : String → StrategyResponse F → StrategyResponse F
  high_transition_risk state r =
      if state == "high_transition_risk"
      then record r {
        position_size_multiplier = minf r.position_size_multiplier (hundredths 50);
        leverage_allowed = false;
        allow_buy_dip = false;
        allow_leverage_expansion = some false;
        require_confirmation_for_new_longs = true;
        prefer_cash_or_hedges = some true;
        modifiers_applied = applied "high_transition_risk" r;
      }
      else r

  sideways_stress : String → StrategyResponse F → StrategyResponse F
  sideways_stress state r =
      if state == "watch"
      then record r {
        position_size_multiplier = hundredths 50;
        allow_breakout = false;
        allow_leverage_expansion = some false;
        take_profit_faster = some true;
        require_confirmation_for_new_longs = true;
        modifiers_applied = applied "sideways_stress" r;
      }
      else r

  bear_stress : String → StrategyResponse F → StrategyResponse F
  bear_stress state r =
      if state == "bear_stress"
      then record r {
        allow_buy_dip = false;
        position_size_multiplier = hundredths 50;
        leverage_allowed = false;
        require_confirmation_for_shorts = true;
        modifiers_applied = applied "bear_stress" r;
      }
      else r

  crisis_stress : String → StrategyResponse F → StrategyResponse F
  crisis_stress state r =
      if state == "crisis"
      then record r {
        position_size_multiplier = hundredths 25;
        leverage_allowed = false;
        hard_max_loss_required = some true;
        block_weak_signals = some true;
        prefer_cash_or_hedges = some true;
        allow_buy_dip = false;
        modifiers_applied = applied "crisis" r;
      }
      else r

  -- The scenarios in source order, the last one winning.
  unfoldable pub scenario_response : RegimeLabels → String → StrategyResponse F
  unfolding bull_healthy_low_vol recovery_attempt sideways_chop bull_fragile transition_weakening
      transition_warning high_transition_risk sideways_stress bear_stress crisis_stress
  scenario_response l state =
      let r₁ = sideways_chop l (recovery_attempt state (bull_healthy_low_vol l initial_response)) in
      let r₂ = transition_warning state (transition_weakening state (bull_fragile state r₁)) in
      crisis_stress state
        (bear_stress state (sideways_stress state (high_transition_risk state r₂)))

  unfoldable pub build_strategy_response :
      RegimeLabels
      → String
      → List String
      → Option (Dict String (StrategyEventModifierRule F))
      → StrategyResponse F
  unfolding scenario_response apply_event_calendar_modifiers
  build_strategy_response l state events config =
      let base = if is_unmapped l state then unmapped_response else scenario_response l state in
      with_actions (apply_event_calendar_modifiers events config (actions_of base)) base
