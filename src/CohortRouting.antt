-- ===== src/CohortRouting.antt =====
-- src/regime_detection/cohort_routing.py, with the configuration records of
-- _config_evidence_strategy.py and the output of strategy_models.py. Axis, label and cohort names
-- are texts, as in the configuration.
mod Walk
mod Outage
mod Tests
use regime_detection.Prelude.Dict.{Dict, lookup, get_or}
use regime_detection.Prelude.Int.{int_eq}
use regime_detection.Prelude.{
  String, Bool, true, false, not, ◌&&◌, Option, none, some, List, [], ◌∷◌, if◌then◌else◌, ◌==◌,
  nat_eq, string_eq, contains, any, all,
}

pub record CohortRoutingRulePredicate : Type 0 where
  pub axis : String
  pub values : List String

pub record CohortRoutingRule : Type 0 where
  pub any_of : List CohortRoutingRulePredicate
  pub all_of : List CohortRoutingRulePredicate

pub record CohortRoutingConfig : Type 0 where
  pub routing_rules : Dict String CohortRoutingRule
  pub blocked_strategy_modes : Dict String (List String)

pub record AgentRouting : Type 0 where
  pub active_cohort : String
  pub fallback_cohort : String
  pub blocked_strategy_modes : List String

abbrev pub fallback : String
fallback = "default_neutral"

abbrev pub crisis : String
crisis = "crisis_specialist"

abbrev pub data_outage : String
data_outage = "data_outage_specialist"

-- `COHORTS`, in precedence order
abbrev pub cohorts : List String
cohorts =
    crisis ∷ data_outage ∷ "euphoria_specialist" ∷ "bear_stress_specialist"
    ∷ "tightening_specialist" ∷ "easing_specialist" ∷ "recovery_specialist"
    ∷ "chop_mean_reversion_specialist" ∷ "bull_low_vol_specialist" ∷ fallback ∷ []

-- The active label of each axis; monetary pressure may be absent.
pub record ActiveLabels : Type 0 where
  pub trend_direction : String
  pub trend_character : String
  pub volatility_state : String
  pub breadth_state : String
  pub network_fragility : String
  pub monetary_pressure : Option String

-- The dictionary `inputs`
abbrev pub inputs_of : ActiveLabels → Dict String (Option String)
inputs_of l =
    ("trend_direction", some l.trend_direction)
    ∷ ("trend_character", some l.trend_character)
    ∷ ("volatility_state", some l.volatility_state)
    ∷ ("breadth_state", some l.breadth_state)
    ∷ ("network_fragility", some l.network_fragility)
    ∷ ("monetary_pressure", l.monetary_pressure)
    ∷ []

abbrev value_in : Option String → List String → Bool
value_in none values = false
value_in (some v) values = contains values v

unfoldable pub predicate_matches : Dict String (Option String) → CohortRoutingRulePredicate → Bool
predicate_matches inputs p = value_in (get_or inputs p.axis none) p.values

abbrev is_empty {ℓ} : {A : Type ℓ} → List A → Bool
is_empty [] = true
is_empty (x ∷ xs) = false

unfoldable pub rule_matches : Dict String (Option String) → CohortRoutingRule → Bool
unfolding predicate_matches
rule_matches inputs rule =
    if is_empty rule.any_of && is_empty rule.all_of
    then false
    else if not (is_empty rule.any_of) && not (any (predicate_matches inputs) rule.any_of)
    then false
    else if not (is_empty rule.all_of) && not (all (predicate_matches inputs) rule.all_of)
    then false
    else true

-- Whether the cohort has a rule, and it matches.
abbrev pub optional_rule_matches : Dict String (Option String) → Option CohortRoutingRule → Bool
optional_rule_matches inputs none = false
optional_rule_matches inputs (some rule) = rule_matches inputs rule

abbrev pub cohort_matches : CohortRoutingConfig → Dict String (Option String) → String → Bool
cohort_matches config inputs cohort =
    optional_rule_matches inputs (lookup config.routing_rules cohort)

-- The walk over the precedence: it stops at the fallback and passes over the crisis cohort.
unfoldable pub walk : CohortRoutingConfig → Dict String (Option String) → List String → String
walk config inputs [] = fallback
walk config inputs (cohort ∷ rest) =
    let later = walk config inputs rest in
    if cohort == fallback
    then fallback
    else if cohort == crisis
    then later
    else if cohort_matches config inputs cohort
    then cohort
    else later

-- `any(inputs[axis] == "unknown" for axis in _UNKNOWN_SENSITIVE_AXES)`
abbrev pub any_core_unknown : ActiveLabels → Bool
any_core_unknown l =
    any (λ x. x == "unknown")
      (l.trend_direction ∷ l.trend_character ∷ l.volatility_state ∷ l.breadth_state
        ∷ l.network_fragility ∷ [])

abbrev pub route : CohortRoutingConfig → String → AgentRouting
route config cohort = record {
  active_cohort = cohort;
  fallback_cohort = fallback;
  blocked_strategy_modes = get_or config.blocked_strategy_modes cohort [];
}

unfoldable pub evaluate_cohort_routing : ActiveLabels → CohortRoutingConfig → AgentRouting
evaluate_cohort_routing labels config =
    let inputs = inputs_of labels in
    if cohort_matches config inputs crisis
    then route config crisis
    else if any_core_unknown labels
    then route config data_outage
    else route config (walk config inputs cohorts)
