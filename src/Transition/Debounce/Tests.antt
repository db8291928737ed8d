-- ===== src/Transition/Debounce/Tests.antt =====
-- A change of state that is confirmed on its third session.
use regime_detection.Prelude.Int.{ℤ, pos, int_eq}
use regime_detection.Prelude.{
  ℕ, String, ◌≡◌, refl, false, none, some, [], ◌∷◌, nat_eq, string_eq, bool_eq, value_error,
  runtime_error, err,
}
use regime_detection.Prelude.Dict.{Dict}
use regime_detection.Float.{Fixed, fixed_float, of_ℕ}
use regime_detection.Transition.Risk.{TransitionRiskOutput}
use regime_detection.Transition.Debounce.{apply_transition_state_debounce}
use regime_detection.Transition.Debounce.Exact.{Publishes, apply_transition_state_debounce_exact}

abbrev raw : TransitionRiskOutput Fixed
raw = record {
  state = "weakening";
  evidence = record {
    triggered_rules = [];
    stable_changed_today = false;
    days_since_axis_switch = none;
    axis_switch_count = pos 0;
    recent_axis_switch_count = pos 0;
    macro_event_labels = [];
  };
  score = of_ℕ 0;
  score_components = [];
  primary_drivers = [];
  triggered_rules = [];
  data_quality_status = "ok";
  classification_status = "classified";
}

abbrev raw_outputs : Dict ℕ (TransitionRiskOutput Fixed)
raw_outputs = (1, raw) ∷ (2, raw) ∷ (3, raw) ∷ (4, raw) ∷ []

abbrev confirmation : Dict String ℤ
confirmation = ("stable", pos 1) ∷ ("weakening", pos 3) ∷ []

-- Without a seed, and with a seed that has no entry.
seed_missing :
    apply_transition_state_debounce (1 ∷ []) raw_outputs confirmation none ≡ err runtime_error
unfolding apply_transition_state_debounce
seed_missing = refl

seed_unknown :
    apply_transition_state_debounce (1 ∷ []) raw_outputs confirmation (some "watch")
    ≡ err value_error
unfolding apply_transition_state_debounce
seed_unknown = refl

apply_transition_state_debounce_exact_example :
    Publishes
      (apply_transition_state_debounce
        (1 ∷ 2 ∷ 3 ∷ 4 ∷ [])
        raw_outputs
        confirmation
        (some "stable"))
      ("stable" ∷ "stable" ∷ "weakening" ∷ "weakening" ∷ [])
apply_transition_state_debounce_exact_example =
    apply_transition_state_debounce_exact (1 ∷ 2 ∷ 3 ∷ 4 ∷ []) raw_outputs confirmation "stable"
      "weakening" 2 refl refl refl
      ((raw, refl, refl), ((raw, refl, refl), ((raw, refl, refl), ((raw, refl, refl), tt))))
