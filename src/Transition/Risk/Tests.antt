-- ===== src/Transition/Risk/Tests.antt =====
-- Transition outputs on fixed-point numbers.
use regime_detection.Prelude.Int.{pos, int_eq}
use regime_detection.Prelude.{
  String, ◌≡◌, refl, true, false, ◌&&◌, none, some, [], ◌∷◌, ◌==◌, nat_eq, string_eq, bool_eq, ok,
}
use regime_detection.Prelude.Dict.{Dict}
use regime_detection.Float.{Fixed, fixed_float, of_ℕ}
use regime_detection.Transition.Score.{ComposedTransitionScore}
use regime_detection.Transition.Risk.{
  TransitionRuleFlags, TransitionRiskOutput, select_transition_state, triggered_rules_of,
  primary_drivers, compose_ready, compose_transition_risk_output, build_output,
}
use regime_detection.Transition.Risk.First.{compose_transition_risk_output_publishes}

abbrev quiet : TransitionRuleFlags
quiet = record {
  crisis = false;
  bear_stress = false;
  fragile_bull = false;
  recovery_attempt = false;
  sideways_stress = false;
  event_transition_watch = false;
  post_switch_cooldown = true;
  insufficient_data = false;
  stable_changed_today = false;
  days_since_axis_switch = none;
  axis_switch_count = pos 0;
  recent_axis_switch_count = pos 0;
}

abbrev components : Dict String Fixed
components =
    ("trend_break", fixed_float.dec (pos 4) 1)
    ∷ ("macro_event", fixed_float.dec (pos 1) 0)
    ∷ ("credit_stress", fixed_float.dec (pos 1) 1)
    ∷ ("liquidity_stress", fixed_float.dec (pos 4) 1)
    ∷ []

abbrev composed : ComposedTransitionScore Fixed
composed = record {
  score = some (fixed_float.dec (pos 2) 1);
  interpretation = some "stable";
  components = some components;
  missing_components = [];
  component_weight_coverage = fixed_float.dec (pos 1) 0;
  macro_event_labels = [];
}

-- Drivers by value, equal ones in the order of the components.
drivers_runs :
    primary_drivers {F = Fixed} components (fixed_float.dec (pos 35) 2)
    ≡ "macro_event" ∷ "trend_break" ∷ "liquidity_stress" ∷ []
unfolding primary_drivers
drivers_runs = refl

abbrev output : TransitionRiskOutput Fixed
output =
    record (build_output composed quiet (fixed_float.dec (pos 35) 2) "watch"
      (fixed_float.dec (pos 2) 1) components) { classification_status = "classified" }

output_runs : compose_transition_risk_output composed quiet (fixed_float.dec (pos 35) 2) ≡ ok output
unfolding compose_transition_risk_output compose_ready select_transition_state
output_runs = refl

compose_transition_risk_output_publishes_example :
    (quiet.insufficient_data ≡ false)
    × ((output.state == "insufficient_data") ≡ false)
    × (output.classification_status ≡ "classified")
    × (fixed_float.le (of_ℕ 0) output.score && fixed_float.le output.score (of_ℕ 1) ≡ true)
    × (output.triggered_rules ≡ triggered_rules_of quiet)
compose_transition_risk_output_publishes_example =
    compose_transition_risk_output_publishes composed quiet (fixed_float.dec (pos 35) 2) output
      output_runs
