-- ===== src/Transition/Risk.antt =====
-- src/regime_detection/transition_risk.py, and the output model of strategy_models.py. States and rule
-- names are the source's strings. Sorting is by insertion, the order of equal values kept.
mod First
mod Tests
use regime_detection.Prelude.Int.{ℤ, int_eq}
use regime_detection.Prelude.{
  String, Bool, not, ◌&&◌, Option, some, List, [], ◌∷◌, if◌then◌else◌, ◌==◌, nat_eq, string_eq,
  bool_eq, take, runtime_error, validation_error, Result, ok, err, ◌>>=◌, ◌>>◌, raise_if,
}
use regime_detection.Prelude.Dict.{Dict, get}
use regime_detection.Float.{Float, lef, gef, ltf, of_ℕ}
use regime_detection.Transition.Score.{ComposedTransitionScore}

pub record TransitionRuleFlags : Type 0 where
  pub crisis : Bool
  pub bear_stress : Bool
  pub fragile_bull : Bool
  pub recovery_attempt : Bool
  pub sideways_stress : Bool
  pub event_transition_watch : Bool
  pub post_switch_cooldown : Bool
  pub insufficient_data : Bool
  pub stable_changed_today : Bool
  pub days_since_axis_switch : Option ℤ
  pub axis_switch_count : ℤ
  pub recent_axis_switch_count : ℤ

pub record TransitionRiskEvidence : Type 0 where
  pub triggered_rules : List String
  pub stable_changed_today : Bool
  pub days_since_axis_switch : Option ℤ
  pub axis_switch_count : ℤ
  pub recent_axis_switch_count : ℤ
  pub macro_event_labels : List String

pub record TransitionRiskOutput {ℓ} (F : Type ℓ) : Type ℓ where
  pub state : String
  pub evidence : TransitionRiskEvidence
  pub score : F
  pub score_components : Dict String F
  pub primary_drivers : List String
  pub triggered_rules : List String
  pub data_quality_status : String
  pub classification_status : String

abbrev pub score_band_to_state : Dict String String
score_band_to_state =
    ("stable", "stable")
    ∷ ("weakening", "weakening")
    ∷ ("transition_warning", "transition_warning")
    ∷ ("high", "high_transition_risk")
    ∷ []

unfoldable pub select_transition_state : String → TransitionRuleFlags → String
select_transition_state score_state flags =
    if flags.crisis
    then "crisis"
    else (if flags.bear_stress
        then "bear_stress"
        else (if flags.fragile_bull
            then "fragile_bull"
            else (if flags.recovery_attempt
                then "recovery_attempt"
                else (if flags.sideways_stress
                    then "watch"
                    else (if flags.event_transition_watch
                        then "watch"
                        else (if flags.post_switch_cooldown && score_state == "stable"
                            then "watch"
                            else (if flags.insufficient_data
                                then "insufficient_data"
                                else score_state)))))))

abbrev pub append_if : Bool → String → List String → List String
append_if test name rest = if test then name ∷ rest else rest

unfoldable pub triggered_rules_of : TransitionRuleFlags → List String
triggered_rules_of flags = append_if flags.crisis "crisis" (
    append_if flags.bear_stress "bear_stress" (
      append_if flags.fragile_bull "fragile_bull" (
        append_if flags.recovery_attempt "recovery_attempt" (
          append_if flags.sideways_stress "sideways_stress" (
            append_if flags.event_transition_watch "event_transition_watch" (
              append_if flags.post_switch_cooldown "post_switch_cooldown"
                (append_if flags.insufficient_data "insufficient_data" [])))))))

module _ {ℓ} {F : Type ℓ} ⦃f : Float F⦄ where
  -- Before the first entry that is not larger.
  abbrev insert : String × F → Dict String F → Dict String F
  insert x [] = x ∷ []
  insert x (y ∷ ys) = let later = insert x ys in if ltf x.1 y.1 then y ∷ later else x ∷ (y ∷ ys)

  -- `sorted(components.items(), key=value, reverse=True)`
  abbrev ranked : Dict String F → Dict String F
  ranked [] = []
  ranked (x ∷ xs) = insert x (ranked xs)

  abbrev drivers_of : F → Dict String F → List String
  drivers_of threshold [] = []
  drivers_of threshold ((name, value) ∷ rest) =
      let later = drivers_of threshold rest in if gef value threshold then name ∷ later else later

  unfoldable pub primary_drivers : Dict String F → F → List String
  primary_drivers components threshold = take 3 (drivers_of threshold (ranked components))

  -- The validation of the output model.
  abbrev pub validate_output : TransitionRiskOutput F → Result (TransitionRiskOutput F)
  validate_output out = do
    raise_if (not (lef (of_ℕ 0) out.score && lef out.score (of_ℕ 1))) validation_error
    ok (record out {
      classification_status =
          if out.state == "insufficient_data" then "insufficient_history" else "classified";
    })

  abbrev pub build_output :
      ComposedTransitionScore F
      → TransitionRuleFlags
      → F
      → String
      → F
      → Dict String F
      → TransitionRiskOutput F
  build_output composed flags minimum state score components = record {
    state = state;
    evidence = record {
      triggered_rules = triggered_rules_of flags;
      stable_changed_today = flags.stable_changed_today;
      days_since_axis_switch = flags.days_since_axis_switch;
      axis_switch_count = flags.axis_switch_count;
      recent_axis_switch_count = flags.recent_axis_switch_count;
      macro_event_labels = composed.macro_event_labels;
    };
    score = score;
    score_components = components;
    primary_drivers = primary_drivers components minimum;
    triggered_rules = triggered_rules_of flags;
    data_quality_status = "ok";
    classification_status = "classified";
  }

  -- The function behind its first guard.
  unfoldable pub compose_ready :
      ComposedTransitionScore F
      → TransitionRuleFlags
      → F
      → Option F
      → Option String
      → Option (Dict String F)
      → Result (TransitionRiskOutput F)
  unfolding select_transition_state
  compose_ready composed flags minimum (some score) (some band) (some components) = do
    raise_if flags.insufficient_data runtime_error
    score_state ← get score_band_to_state band
    validate_output (
        build_output composed flags minimum (select_transition_state score_state flags) score
          components)
  compose_ready composed flags minimum _ _ _ = err runtime_error

  unfoldable pub compose_transition_risk_output :
      ComposedTransitionScore F → TransitionRuleFlags → F → Result (TransitionRiskOutput F)
  unfolding compose_ready
  compose_transition_risk_output composed flags minimum =
      compose_ready composed flags minimum composed.score composed.interpretation
        composed.components
