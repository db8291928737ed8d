-- ===== src/Transition/Score.antt =====
-- The score, its band and the composer of src/regime_detection/transition_score.py. Python's `sum` is
-- a left fold from 0.
mod Unit
mod Bands
mod Total
mod Tests
use regime_detection.Prelude.Int.{int_eq}
use regime_detection.Prelude.{
  String, Bool, true, false, not, ◌||◌, Option, none, some, List, [], ◌∷◌, map, if◌then◌else◌,
  nat_eq, string_eq, bool_eq, any, value_error, runtime_error, Result, ok, ◌>>=◌, ◌>>◌, raise_if,
}
use regime_detection.Prelude.Dict.{Dict, keys, get_or, get, has_key}
use regime_detection.Float.{Float, ltf, lef, gtf, of_ℕ}
use regime_detection.Transition.Components.{
  nonempty, filter_labels, macro_labels_of, clip_unit, components_of, TransitionComponentScales,
  SessionInputs,
}

pub record TransitionScoreConfig {ℓ} (F : Type ℓ) : Type ℓ where
  pub weights : Dict String F
  pub minimum_component_weight_coverage : F
  pub bands : Dict String (F × F)
  pub scales : TransitionComponentScales F

pub record ComposedTransitionScore {ℓ} (F : Type ℓ) : Type ℓ where
  pub score : Option F
  pub interpretation : Option String
  pub components : Option (Dict String F)
  pub missing_components : List String
  pub component_weight_coverage : F
  pub macro_event_labels : List String

-- What `compute_transition_score` returns.
pub record ScoreParts {ℓ} (F : Type ℓ) : Type ℓ where
  pub total : Option F
  pub present : Option (Dict String F)
  pub missing : List String
  pub coverage : F

module _ {ℓ} {F : Type ℓ} where
  -- `components.get(key)`, which is `None` for a missing key too.
  abbrev pub component : Dict String (Option F) → String → Option F
  component components key = get_or components key none

  abbrev pub absent : Option F → Bool
  absent none = true
  absent (some x) = false

  abbrev pub is_missing : Dict String (Option F) → String → Bool
  is_missing components key = absent (component components key)

  -- `[key for key in weights if components.get(key) is None]`
  abbrev pub missing_keys : Dict String (Option F) → Dict String F → List String
  missing_keys components weights = filter_labels (is_missing components) (keys weights)

  -- The components that are a number and have a weight.
  unfoldable present_of : Dict String F → Dict String (Option F) → Dict String F
  present_of weights [] = []
  present_of weights ((key, none) ∷ rest) = present_of weights rest
  present_of weights ((key, some value) ∷ rest) =
      let others = present_of weights rest in
      if has_key weights key then (key, value) ∷ others else others

module _ {ℓ} {F : Type ℓ} ⦃f : Float F⦄ where
  abbrev sum_from : F → List F → F
  sum_from total [] = total
  sum_from total (x ∷ xs) = sum_from (f.add total x) xs

  abbrev values_of : Dict String F → List F
  values_of = map (λ e. e.1)

  -- The weights whose component is there.
  abbrev present_weights : Dict String (Option F) → Dict String F → List F
  present_weights components [] = []
  present_weights components ((key, weight) ∷ rest) =
      let others = present_weights components rest in
      if is_missing components key then others else weight ∷ others

  -- The terms of the score.
  abbrev terms : Dict String F → F → Dict String F → List F
  terms weights total [] = []
  terms weights total ((key, value) ∷ rest) =
      f.div (f.mul value (get_or weights key (of_ℕ 0))) total ∷ terms weights total rest

  abbrev pub has_unknown : Dict String (Option F) → Dict String F → Bool
  has_unknown components weights = any (λ key. not (has_key weights key)) (keys components)

  abbrev pub total_weight : Dict String F → F
  total_weight weights = sum_from (of_ℕ 0) (values_of weights)

  abbrev pub present_weight : Dict String (Option F) → Dict String F → F
  present_weight components weights = sum_from (of_ℕ 0) (present_weights components weights)

  -- The result where nothing is raised.
  unfoldable pub score_parts : Dict String (Option F) → Dict String F → F → ScoreParts F
  unfolding clip_unit present_of
  score_parts components weights minimum =
      let missing = missing_keys components weights in
      let coverage = f.div (present_weight components weights) (total_weight weights) in
      let present = present_of weights components in
      let sum = sum_from (of_ℕ 0) (terms weights (present_weight components weights) present) in
      if ltf coverage minimum
      then record { total = none; present = none; missing = missing; coverage = coverage }
      else record {
        total = some (clip_unit sum);
        present = some present;
        missing = missing;
        coverage = coverage;
      }

  unfoldable pub compute_transition_score :
      Dict String (Option F) → Dict String F → F → Result (ScoreParts F)
  unfolding score_parts
  compute_transition_score components weights minimum = do
    raise_if (has_unknown components weights) value_error
    raise_if (lef (total_weight weights) (of_ℕ 0)) value_error
    raise_if (nonempty (missing_keys components weights)) runtime_error
    ok (score_parts components weights minimum)

  -- One test of the chain: below the band's lower edge, or what follows.
  unfoldable pub below_or :
      F → Dict String (F × F) → String → String → Result String → Result String
  below_or score bands edge name following = do
    band ← get bands edge
    if ltf score band.0 then ok name else following

  unfoldable pub interpret_transition_score : F → Dict String (F × F) → Result String
  unfolding below_or
  interpret_transition_score score bands = do
    raise_if (ltf score (of_ℕ 0) || gtf score (of_ℕ 1)) value_error
    below_or score bands "weakening" "stable" (
        below_or score bands "transition_warning" "weakening"
          (below_or score bands "high" "transition_warning" (ok "high")))

  -- The last statements of the composer.
  abbrev pub finish :
      TransitionScoreConfig F
      → List String
      → ScoreParts F
      → Option F
      → Option (Dict String F)
      → Result (ComposedTransitionScore F)
  finish config macro parts (some total) (some present) = do
    band ← interpret_transition_score total config.bands
    ok (record {
      score = some total;
      interpretation = some band;
      components = some present;
      missing_components = parts.missing;
      component_weight_coverage = parts.coverage;
      macro_event_labels = macro;
    })
  finish config macro parts _ _ = ok (record {
    score = none;
    interpretation = none;
    components = none;
    missing_components = parts.missing;
    component_weight_coverage = parts.coverage;
    macro_event_labels = macro;
  })

  unfoldable pub compose_transition_score_for_session :
      SessionInputs F → TransitionScoreConfig F → Result (ComposedTransitionScore F)
  unfolding components_of compute_transition_score interpret_transition_score macro_labels_of
  compose_transition_score_for_session i config = do
    components ← components_of config.scales i
    parts ←
        compute_transition_score components config.weights config.minimum_component_weight_coverage
    finish config (macro_labels_of i.event_calendar_labels) parts parts.total parts.present
