-- ===== src/CohortRouting/Tests.antt =====
-- Routings under a small configuration, and the theorems there.
use regime_detection.Prelude.Int.{int_eq}
use regime_detection.Prelude.{
  not, ◌&&◌, ◌||◌, ◌==◌, String, ◌≡◌, refl, Option, none, some, List, [], ◌∷◌, nat_eq, string_eq,
}
use regime_detection.CohortRouting.{
  CohortRoutingConfig, CohortRoutingRulePredicate, ActiveLabels, inputs_of, cohorts, crisis,
  data_outage, cohort_matches, walk, evaluate_cohort_routing, rule_matches,
}
use regime_detection.CohortRouting.Walk.{IsFirst, evaluate_cohort_routing-IsFirst}
use regime_detection.CohortRouting.Outage.{lacks_core, evaluate_cohort_routing_emergencies}

abbrev predicate : String → List String → CohortRoutingRulePredicate
predicate axis values = record { axis = axis; values = values }

abbrev config : CohortRoutingConfig
config = record {
  routing_rules =
      (
        crisis,
        record { any_of = predicate "volatility_state" ("crisis_vol" ∷ []) ∷ []; all_of = [] },
      )
      ∷ (
        "chop_mean_reversion_specialist",
        record { any_of = []; all_of = predicate "trend_character" ("chop" ∷ []) ∷ [] },
      )
      ∷ (
        "tightening_specialist",
        record { any_of = predicate "monetary_pressure" ("rate_shock" ∷ []) ∷ []; all_of = [] },
      )
      ∷ [];
  blocked_strategy_modes = (data_outage, "leveraged_long" ∷ "short_vol" ∷ []) ∷ [];
}

abbrev labels : String → Option String → ActiveLabels
labels direction pressure = record {
  trend_direction = direction;
  trend_character = "chop";
  volatility_state = "normal_vol";
  breadth_state = "neutral_breadth";
  network_fragility = "normal";
  monetary_pressure = pressure;
}

chop_routed :
    (evaluate_cohort_routing (labels "sideways" none) config).active_cohort
    ≡ "chop_mean_reversion_specialist"
unfolding evaluate_cohort_routing walk rule_matches
chop_routed = refl

tightening_precedes :
    (evaluate_cohort_routing (labels "sideways" (some "rate_shock")) config).active_cohort
    ≡ "tightening_specialist"
unfolding evaluate_cohort_routing walk rule_matches
tightening_precedes = refl

evaluate_cohort_routing-IsFirst_example :
    IsFirst config
      (inputs_of (labels "sideways" none))
      cohorts
      (evaluate_cohort_routing (labels "sideways" none) config).active_cohort
unfolding rule_matches
evaluate_cohort_routing-IsFirst_example =
    evaluate_cohort_routing-IsFirst (labels "sideways" none) config refl refl

evaluate_cohort_routing_emergencies_example :
    let routed = (evaluate_cohort_routing (labels "unknown" none) config).active_cohort in
    let is_crisis = cohort_matches config (inputs_of (labels "unknown" none)) crisis in
    ((routed == crisis) ≡ is_crisis)
    × ((routed == data_outage) ≡ (
        not is_crisis
        && (lacks_core (labels "unknown" none)
            || cohort_matches config (inputs_of (labels "unknown" none)) data_outage)))
evaluate_cohort_routing_emergencies_example =
    evaluate_cohort_routing_emergencies (labels "unknown" none) config
