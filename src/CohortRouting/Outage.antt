-- ===== src/CohortRouting/Outage.antt =====
-- The two cohorts of an emergency are routed exactly when there is one.
use regime_detection.Prelude.Int.{int_eq}
use regime_detection.Prelude.{
  String, ◌≡◌, refl, inl, inr, Bool, false, not, ◌&&◌, ◌||◌, List, [], ◌∷◌, arith, Bool-cases, ◌==◌,
  nat_eq, string_eq, contains, drop,
}
use regime_detection.CohortRouting.{
  CohortRoutingConfig, ActiveLabels, inputs_of, crisis, data_outage, fallback, cohorts,
  cohort_matches, walk, any_core_unknown, evaluate_cohort_routing,
}

absent_there : (a b : Bool) → a || b ≡ false → (a ≡ false) × (b ≡ false)
absent_there a b h = ground arith

-- The walk gives a cohort of its list or the fallback.
walk-absent :
    (config : CohortRoutingConfig) (labels : ActiveLabels) (list : List String) (name : String)
    → contains list name ≡ false
    → (fallback == name) ≡ false
    → (walk config (inputs_of labels) list == name) ≡ false
unfolding walk
walk-absent config labels [] name absent other = other
walk-absent config labels (cohort ∷ list) name absent other =
    let (not_here, later) = absent_there (cohort == name) (contains list name) absent in
    let rest = walk-absent config labels list name later other in
    elim (Bool-cases (cohort == fallback)) [
      | inl last ↦ rw last other
      | inr further ↦ elim (Bool-cases (cohort == crisis)) [
        | inl passed ↦ rw (further, passed) rest
        | inr walked ↦ elim (Bool-cases (cohort_matches config (inputs_of labels) cohort)) [
          | inl matches ↦ rw (further, walked, matches) not_here
          | inr misses ↦ rw (further, walked, misses) rest
        ]
      ]
    ]

-- The walk passes over the crisis cohort, and comes first to that of the outage.
walk-crisis :
    (config : CohortRoutingConfig) (labels : ActiveLabels)
    → (walk config (inputs_of labels) cohorts == crisis) ≡ false
unfolding walk
walk-crisis config labels =
    elim (Bool-cases (cohort_matches config (inputs_of labels) data_outage)) [
      | inl matches ↦ rw matches refl
      | inr misses ↦ rw misses (walk-absent config labels (drop 2 cohorts) crisis refl refl)
    ]

walk-data_outage :
    (config : CohortRoutingConfig) (labels : ActiveLabels)
    → (walk config (inputs_of labels) cohorts == data_outage)
      ≡ cohort_matches config (inputs_of labels) data_outage
unfolding walk
walk-data_outage config labels =
    elim (Bool-cases (cohort_matches config (inputs_of labels) data_outage)) [
      | inl matches ↦ rw matches refl
      | inr misses ↦ rw misses (walk-absent config labels (drop 2 cohorts) data_outage refl refl)
    ]

-- Whether one of the five core axes is unknown.
abbrev pub lacks_core : ActiveLabels → Bool
lacks_core l =
    contains
      (l.trend_direction ∷ l.trend_character ∷ l.volatility_state ∷ l.breadth_state
        ∷ l.network_fragility ∷ [])
      "unknown"

-- The routed cohort is that of the crisis exactly when its rule matches, whatever data are missing. It
-- is that of the data outage exactly when the crisis rule does not match, and either one of the five
-- core axes is unknown or the configuration has a rule for the outage that matches. So no other cohort
-- is routed while a core axis is unknown, and these two are not routed without cause.
pub evaluate_cohort_routing_emergencies :
    (labels : ActiveLabels) (config : CohortRoutingConfig)
    → let routed = (evaluate_cohort_routing labels config).active_cohort in
      let is_crisis = cohort_matches config (inputs_of labels) crisis in
      ((routed == crisis) ≡ is_crisis)
      × ((routed == data_outage) ≡ (
          not is_crisis
          && (lacks_core labels || cohort_matches config (inputs_of labels) data_outage)))
unfolding evaluate_cohort_routing
evaluate_cohort_routing_emergencies labels config =
    elim (Bool-cases (cohort_matches config (inputs_of labels) crisis)) [
      | inl stress ↦ rw stress (refl, refl)
      | inr calm ↦ elim (Bool-cases (any_core_unknown labels)) [
        | inl outage ↦ rw (calm, outage) (refl, refl)
        | inr known ↦ rw (calm, known) (walk-crisis config labels, walk-data_outage config labels)
      ]
    ]
