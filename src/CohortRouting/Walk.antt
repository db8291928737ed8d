-- ===== src/CohortRouting/Walk.antt =====
-- The walk returns the first cohort whose rule matches.
use regime_detection.Prelude.Dict.{Dict}
use regime_detection.Prelude.Int.{int_eq}
use regime_detection.Prelude.{
  String, ◌≡◌, refl, sym, ap, ◌⊎◌, inl, inr, true, false, Option, List, [], ◌∷◌, ◌++◌, Bool-cases,
  ◌==◌, nat_eq, string_eq, contains, ==_refl, All,
}
use mathlib.Core.Path.{subst}
use regime_detection.CohortRouting.{
  CohortRoutingConfig, ActiveLabels, inputs_of, cohorts, fallback, crisis, cohort_matches, walk,
  any_core_unknown, evaluate_cohort_routing,
}

-- A cohort that the walk passes over.
abbrev pub Passed : CohortRoutingConfig → Dict String (Option String) → String → Type 0
Passed config inputs c =
    ((c == fallback) ≡ false) × (((c == crisis) ≡ true) ⊎ (cohort_matches config inputs c ≡ false))

-- Where the walk stopped: after cohorts that it passed over, at the fallback or at a match.
pub record IsFirst (config : CohortRoutingConfig) (inputs : Dict String (Option String))
    (list : List String) (chosen : String) : Type 0 where
  pub before : List String
  pub after : List String
  pub splits : list ≡ before ++ (chosen ∷ after)
  pub passed : All (Passed config inputs) before
  pub stops :
      (chosen ≡ fallback)
      ⊎ (((chosen == crisis) ≡ false) × (cohort_matches config inputs chosen ≡ true))

-- One more cohort that is passed over.
IsFirst-cons :
    (config : CohortRoutingConfig) (inputs : Dict String (Option String)) (c : String)
    (rest : List String) (chosen : String)
    → Passed config inputs c
    → IsFirst config inputs rest chosen
    → IsFirst config inputs (c ∷ rest) chosen
IsFirst-cons config inputs c rest chosen p f = record {
  before = c ∷ f.before;
  after = f.after;
  splits = ap (◌∷◌ c) f.splits;
  passed = (p, f.passed);
  stops = f.stops;
}

walk-IsFirst :
    (config : CohortRoutingConfig) (inputs : Dict String (Option String)) (list : List String)
    → contains list fallback ≡ true
    → IsFirst config inputs list (walk config inputs list)
unfolding walk
walk-IsFirst config inputs [] h = cc
walk-IsFirst config inputs (c ∷ rest) h = elim (Bool-cases (c == fallback)) [
  | inl eq ↦ rw eq (record {
    before = [];
    after = rest;
    splits = ap (λ x. x ∷ rest) ((string_eq.eq_test_iff c fallback).0 eq);
    passed = tt;
    stops = inl refl;
  })
  | inr ne ↦
      let rest_first = walk-IsFirst config inputs rest (rw ne at h) in
      rw ne (elim (Bool-cases (c == crisis)) [
        | inl is_crisis ↦
            rw is_crisis (IsFirst-cons config inputs c rest _ (ne, inl is_crisis) rest_first)
        | inr other ↦ rw other (elim (Bool-cases (cohort_matches config inputs c)) [
          | inl m ↦ rw m (record {
            before = [];
            after = rest;
            splits = refl;
            passed = tt;
            stops = inr (other, m);
          })
          | inr no_match ↦
              rw no_match (IsFirst-cons config inputs c rest _ (ne, inr no_match) rest_first)
        ])
      ])
]

-- Precedence. Where neither the crisis rule matches nor a core axis is unknown, the routed cohort is
-- in the closed set; no rule of a cohort that precedes it there matches, the crisis cohort's
-- included, and its own rule matches unless it is the fallback.
pub evaluate_cohort_routing-IsFirst :
    (labels : ActiveLabels) (config : CohortRoutingConfig)
    → cohort_matches config (inputs_of labels) crisis ≡ false
    → any_core_unknown labels ≡ false
    → IsFirst config
        (inputs_of labels)
        cohorts
        (evaluate_cohort_routing labels config).active_cohort
unfolding evaluate_cohort_routing
evaluate_cohort_routing-IsFirst labels config calm known =
    rw (calm, known) (walk-IsFirst config (inputs_of labels) cohorts refl)

contains-append_self :
    (before : List String) (c : String) (after : List String)
    → contains (before ++ (c ∷ after)) c ≡ true
contains-append_self [] c after = rw (==_refl c)
contains-append_self (x ∷ before) c after = elim (Bool-cases (x == c)) [
  | inl eq ↦ rw eq
  | inr ne ↦ rw ne (contains-append_self before c after)
]

contains-walk :
    (config : CohortRoutingConfig) (inputs : Dict String (Option String))
    → contains cohorts (walk config inputs cohorts) ≡ true
contains-walk config inputs =
    let first = walk-IsFirst config inputs cohorts refl in
    subst (λ (list : List String). contains list (walk config inputs cohorts) ≡ true)
      (sym first.splits)
      (contains-append_self first.before (walk config inputs cohorts) first.after)

-- Every routed cohort is in the closed set, and `default_neutral` is always the fallback.
pub evaluate_cohort_routing_closed :
    (labels : ActiveLabels) (config : CohortRoutingConfig)
    → (contains cohorts (evaluate_cohort_routing labels config).active_cohort ≡ true)
      × ((evaluate_cohort_routing labels config).fallback_cohort ≡ fallback)
unfolding evaluate_cohort_routing
evaluate_cohort_routing_closed labels config =
    elim (Bool-cases (cohort_matches config (inputs_of labels) crisis)) [
      | inl stress ↦ rw stress (refl, refl)
      | inr calm ↦ rw calm (elim (Bool-cases (any_core_unknown labels)) [
        | inl outage ↦ rw outage (refl, refl)
        | inr known ↦ rw known (contains-walk config (inputs_of labels), refl)
      ])
    ]
