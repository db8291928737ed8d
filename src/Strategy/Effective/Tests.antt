-- ===== src/Strategy/Effective/Tests.antt =====
-- Effective constraints of a small configuration, and the theorems there.
use regime_detection.Prelude.Dict.{Dict}
use regime_detection.Prelude.Int.{pos, int_eq}
use regime_detection.Prelude.{
  String, ◌≡◌, refl, ◌↔◌, Bool, true, false, none, some, List, [], ◌∷◌, nat_eq, string_eq, bool_eq,
}
use regime_detection.Float.{Fixed, fixed_float}
use regime_detection.CohortRouting.{AgentRouting}
use regime_detection.Strategy.{
  StrategyResponse, StrategyFamilyConstraint, EffectiveStrategyConstraint,
}
use regime_detection.Strategy.Family.{no_limits}
use regime_detection.Strategy.Effective.{resolve_effective_strategy_constraints}
use regime_detection.Strategy.Effective.Restrictive.{Permits, resolve_effective-Permits}

abbrev response : StrategyResponse Fixed
response = record {
  position_size_multiplier = fixed_float.dec (pos 5) 1;
  allow_trend_following = true;
  allow_mean_reversion = true;
  leverage_allowed = false;
  allow_buy_dip = false;
  allow_breakout = true;
  allow_shorts = true;
  require_confirmation_for_new_longs = true;
  require_confirmation_for_shorts = false;
  log_for_review = false;
  modifiers_applied = "bull_fragile" ∷ [];
  hard_max_loss_required = none;
  block_weak_signals = none;
  prefer_cash_or_hedges = none;
  take_profit_faster = none;
  allow_leverage_expansion = some false;
  require_breadth_confirmation = none;
  reason = none;
}

abbrev routing : AgentRouting
routing = record {
  active_cohort = "data_outage_specialist";
  fallback_cohort = "default_neutral";
  blocked_strategy_modes = "short_vol" ∷ "leveraged_long" ∷ [];
}

abbrev constraints : Dict String (StrategyFamilyConstraint Fixed)
constraints =
    ("breakout", record { allowed = false; limits = no_limits; reason = some "chop" }) ∷ []

abbrev verdicts : Dict String (EffectiveStrategyConstraint Fixed) → List (String × Bool)
verdicts [] = []
verdicts ((k, c) ∷ d) = (k, c.allowed) ∷ verdicts d

resolves :
    verdicts (resolve_effective_strategy_constraints response (some routing) (some constraints))
    ≡ ("trend_following", true)
      ∷ ("mean_reversion", true)
      ∷ ("breakout", false)
      ∷ ("short_vol", false)
      ∷ ("long_vol", true)
      ∷ ("buy_dip", false)
      ∷ ("shorts", true)
      ∷ ("leveraged_long", false)
      ∷ []
unfolding resolve_effective_strategy_constraints
resolves = refl

abbrev breakout : EffectiveStrategyConstraint Fixed
breakout = record {
  family = "breakout";
  allowed = false;
  sources = "strategy_response" ∷ "strategy_family_constraints" ∷ [];
  blocking_reasons = "strategy_family_constraints:chop" ∷ [];
  position_size_multiplier = fixed_float.dec (pos 5) 1;
  leverage_allowed = false;
  require_confirmation_for_new_longs = true;
  require_confirmation_for_shorts = false;
  limits = no_limits;
}

resolve_effective-Permits_example :
    ((breakout.allowed ≡ true) ↔ Permits response (some routing) (some constraints) "breakout")
    × ((breakout.allowed ≡ true) ↔ (breakout.blocking_reasons ≡ []))
unfolding resolve_effective_strategy_constraints
resolve_effective-Permits_example =
    resolve_effective-Permits response (some routing) (some constraints) "breakout" breakout refl
