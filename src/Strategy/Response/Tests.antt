-- ===== src/Strategy/Response/Tests.antt =====
-- Responses on fixed-point numbers.
use regime_detection.Prelude.Int.{int_eq}
use regime_detection.Prelude.{
  String, ◌≡◌, refl, true, false, none, some, [], ◌∷◌, nat_eq, string_eq, bool_eq, value_error, err,
}
use regime_detection.Prelude.Dict.{Dict}
use regime_detection.Float.{Fixed, fixed_float}
use regime_detection.Float.Meets.{Fixed-IsFloat}
use regime_detection.Strategy.Actions.{
  StrategyEventModifierRule, validate_action_fields, apply_event_calendar_modifiers, apply_rule,
  apply_rules,
}
use regime_detection.Strategy.Response.{
  RegimeLabels, actions_of, hundredths, initial_response, scenario_response,
  build_strategy_response,
}
use regime_detection.Strategy.Response.Events.{
  Tightens, Validated, apply_event_calendar_modifiers-Tightens,
}
use regime_detection.Strategy.Response.Sizes.{SizeWithin}
use regime_detection.Strategy.Response.Scenarios.{
  build_strategy_response-SizeWithin, build_strategy_response-unleveraged,
}

abbrev event_rule : StrategyEventModifierRule Fixed
event_rule = record {
  labels = "fomc_day" ∷ "cpi_day" ∷ [];
  position_size_cap = some (hundredths 50);
  leverage_allowed = some false;
  allow_leverage_expansion = none;
  require_confirmation_for_new_longs = some true;
  prefer_cash_or_hedges = none;
}

abbrev event_rules : Dict String (StrategyEventModifierRule Fixed)
event_rules = ("macro_event", event_rule) ∷ []

abbrev bull_labels : RegimeLabels
bull_labels = record {
  trend_direction = "bull";
  trend_character = "trending";
  volatility_state = "low_vol";
  breadth_state = "healthy_breadth";
}

abbrev unknown_labels : RegimeLabels
unknown_labels = record bull_labels { breadth_state = "unknown" }

event_rules-Validated : Validated event_rules
unfolding validate_action_fields
event_rules-Validated = (refl, tt)

-- A rule that grants leverage does not pass its validation.
granting_refused :
    validate_action_fields (record event_rule { leverage_allowed = some true }) ≡ err value_error
unfolding validate_action_fields
granting_refused = refl

bull_runs :
    (build_strategy_response {F = Fixed} bull_labels "stable"
      ("cpi_day" ∷ [])
      (some event_rules)).modifiers_applied
    ≡ "bull_healthy_low_vol" ∷ "macro_event" ∷ []
unfolding build_strategy_response scenario_response apply_event_calendar_modifiers apply_rules
    apply_rule
bull_runs = refl

apply_event_calendar_modifiers-Tightens_example :
    Tightens (actions_of {F = Fixed} initial_response) (
      apply_event_calendar_modifiers
        ("cpi_day" ∷ [])
        (some event_rules)
        (actions_of initial_response))
apply_event_calendar_modifiers-Tightens_example =
    apply_event_calendar_modifiers-Tightens Fixed-IsFloat ("cpi_day" ∷ []) event_rules
      (actions_of initial_response) event_rules-Validated refl

build_strategy_response-SizeWithin_example :
    SizeWithin {F = Fixed}
      (hundredths 100)
      (build_strategy_response bull_labels "weakening" ("cpi_day" ∷ []) (some event_rules))
build_strategy_response-SizeWithin_example =
    build_strategy_response-SizeWithin Fixed-IsFloat bull_labels "weakening" ("cpi_day" ∷ [])
      (some event_rules) event_rules-Validated

build_strategy_response-unleveraged_example :
    (build_strategy_response {F = Fixed} bull_labels "crisis"
      ("cpi_day" ∷ [])
      (some event_rules)).leverage_allowed
    ≡ false
build_strategy_response-unleveraged_example =
    build_strategy_response-unleveraged Fixed-IsFloat bull_labels "crisis" ("cpi_day" ∷ [])
      (some event_rules) event_rules-Validated refl
