-- ===== src/Transition/History/Tests.antt =====
-- Three sessions of labels: the volatility switches on the second, and the bear trend ends.
use regime_detection.Prelude.Int.{pos, int_eq}
use regime_detection.Prelude.{
  ℕ, String, ◌≡◌, refl, true, false, none, some, [], ◌∷◌, nat_eq, string_eq, bool_eq, all, ok,
  ◌>>=◌,
}
use regime_detection.Prelude.Dict.{Dict}
use regime_detection.Transition.History.{
  TransitionRiskHistory, StableLabels, stable_frame, build_transition_risk_history,
}
use regime_detection.Transition.History.Described.{
  described, build_transition_risk_history-eq-described,
}
use regime_detection.Transition.History.Prefix.{Extends, build_transition_risk_history_no_lookahead}
use regime_detection.Transition.History.Missing.{
  Raises, is_labelled, build_transition_risk_history_missing,
}

abbrev steady : Dict ℕ String
steady = (1, "x") ∷ (2, "x") ∷ (3, "x") ∷ []

abbrev labels : StableLabels
labels = record {
  trend_direction_stable_by_date = (1, "bear") ∷ (2, "bear") ∷ (3, "bull") ∷ [];
  trend_character_stable_by_date = steady;
  volatility_stable_by_date = (1, "low") ∷ (2, "high") ∷ (3, "high") ∷ [];
  breadth_stable_by_date = steady;
}

abbrev first_two : TransitionRiskHistory
first_two = record {
  stable_changed_by_date = (1, false) ∷ (2, true) ∷ [];
  days_since_axis_switch_by_date = (1, none) ∷ (2, some (pos 0)) ∷ [];
  axis_switch_count_by_date = (1, 0) ∷ (2, 1) ∷ [];
  recent_axis_switch_count_by_date = (1, 0) ∷ (2, 1) ∷ [];
  prior_bear_by_date = (1, false) ∷ (2, true) ∷ [];
}

two_built : build_transition_risk_history labels (1 ∷ 2 ∷ []) ≡ ok first_two
unfolding build_transition_risk_history
two_built = refl

build_transition_risk_history-eq-described_example :
    build_transition_risk_history labels (1 ∷ 2 ∷ 3 ∷ [])
    ≡ (stable_frame labels (1 ∷ 2 ∷ 3 ∷ []) >>= λ rows. ok (described (1 ∷ 2 ∷ 3 ∷ []) rows))
build_transition_risk_history-eq-described_example =
    build_transition_risk_history-eq-described labels (1 ∷ 2 ∷ 3 ∷ [])

build_transition_risk_history_no_lookahead_example :
    (short : TransitionRiskHistory) × (build_transition_risk_history labels (1 ∷ []) ≡ ok short)
    × Extends first_two short
build_transition_risk_history_no_lookahead_example =
    build_transition_risk_history_no_lookahead labels (1 ∷ []) (2 ∷ []) first_two two_built

build_transition_risk_history_missing_example :
    Raises
      (all (is_labelled labels) (3 ∷ 4 ∷ []))
      (build_transition_risk_history labels (3 ∷ 4 ∷ []))
build_transition_risk_history_missing_example =
    build_transition_risk_history_missing labels (3 ∷ 4 ∷ [])
