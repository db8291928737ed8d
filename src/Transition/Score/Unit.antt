-- ===== src/Transition/Score/Unit.antt =====
-- A score is in [0, 1], whatever the components are.
use regime_detection.Prelude.Int.{pos, int_eq}
use regime_detection.Prelude.{
  some_inner, String, ◌≡◌, refl, sym, ap, ◌∙◌, ◌≢◌, inl, inr, Bool, true, false, Option, none, some,
  List, Bool-cases, nat_eq, string_eq, bool_eq, Error, value_error, runtime_error, ok, ◌>>◌,
  raise_if, bind_ok, ok-injective, raise_if_ok,
}
use regime_detection.Prelude.Dict.{Dict}
use mathlib.Core.Path.{subst}
use regime_detection.Float.{Float, IsFloat, ltf, lef, of_ℕ}
use regime_detection.Float.Order.{lt→lef, lt_number}
use regime_detection.Transition.Components.{clip, clip_unit, nonempty, components_of, SessionInputs}
use regime_detection.Transition.Score.{
  TransitionScoreConfig, ComposedTransitionScore, score_parts, has_unknown, total_weight,
  present_weight, ScoreParts, missing_keys, compute_transition_score,
  compose_transition_score_for_session, interpret_transition_score, finish,
}

three_checks {ℓ} :
    {B : Type ℓ} (a b c : Bool) (x y z : Error) (v : B) {last : B}
    → (raise_if a x >> (raise_if b y >> (raise_if c z >> ok v))) ≡ ok last
    → (c ≡ false) × (v ≡ last)
three_checks a b c x y z v h =
    let (p, h₁) = raise_if_ok a x _ h in
    let (q, h₂) = raise_if_ok b y _ h₁ in let (r, h₃) = raise_if_ok c z _ h₂ in (r, ok-injective h₃)

module _ {F : Type 0} ⦃f : Float F⦄ where
  -- A number in [0, 1].
  pub record InUnit (x : F) : Type 0 where
    pub at_least : f.le (of_ℕ 0) x ≡ true
    pub at_most : f.le x (of_ℕ 1) ≡ true
    pub number : f.is_nan x ≡ false

  module _ (laws : IsFloat F) where
    open laws use {dec_number, dec_le}

    zero-InUnit : InUnit (of_ℕ 0)
    zero-InUnit = record {
      at_least = dec_le (pos 0) (pos 0) 0 refl;
      at_most = dec_le (pos 0) (pos 1) 0 refl;
      number = dec_number (pos 0) 0;
    }

    one-InUnit : InUnit (of_ℕ 1)
    one-InUnit = record {
      at_least = dec_le (pos 0) (pos 1) 0 refl;
      at_most = dec_le (pos 1) (pos 1) 0 refl;
      number = dec_number (pos 1) 0;
    }

    pub clip_unit-InUnit : (x : F) → InUnit (clip_unit x)
    unfolding clip_unit clip
    clip_unit-InUnit x = elim (Bool-cases (f.lt x (of_ℕ 1))) [
      | inl below ↦ rw below (elim (Bool-cases (f.lt (of_ℕ 0) x)) [
        | inl above ↦ rw above (record {
          at_least = lt→lef laws (of_ℕ 0) x above;
          at_most = lt→lef laws x (of_ℕ 1) below;
          number = (lt_number laws x (of_ℕ 1) below).0;
        })
        | inr under ↦ rw under zero-InUnit
      ])
      | inr over ↦ rw over (elim (Bool-cases (f.lt (of_ℕ 0) (of_ℕ 1))) [
        | inl above ↦ rw above one-InUnit
        | inr under ↦ rw under zero-InUnit
      ])
    ]

    parts_missing :
        (components : Dict String (Option F)) (weights : Dict String F) (minimum : F)
        → (score_parts components weights minimum).missing ≡ missing_keys components weights
    unfolding score_parts
    parts_missing components weights minimum =
        elim (Bool-cases
          (ltf (f.div (present_weight components weights) (total_weight weights)) minimum)) [
            | inl low ↦ rw low refl
            | inr enough ↦ rw enough refl
          ]

    parts_total :
        (components : Dict String (Option F)) (weights : Dict String F) (minimum total : F)
        → (score_parts components weights minimum).total ≡ some total
        → InUnit total
    unfolding score_parts
    parts_total components weights minimum total h =
        elim (Bool-cases
          (ltf (f.div (present_weight components weights) (total_weight weights)) minimum)) [
            | inl low ↦ let absurd = rw low at h in cc
            | inr enough ↦
                let same = rw enough at h in subst InUnit (some_inner same) (clip_unit-InUnit _)
          ]

    -- What a computed score is: nothing was missing, and a score is in the unit interval.
    compute_transition_score-InUnit :
        (components : Dict String (Option F)) (weights : Dict String F) (minimum : F)
        (parts : ScoreParts F) (total : F)
        → compute_transition_score components weights minimum ≡ ok parts
        → parts.total ≡ some total
        → (nonempty parts.missing ≡ false) × InUnit total
    unfolding compute_transition_score
    compute_transition_score-InUnit components weights minimum parts total h k =
        let (complete, same) =
          three_checks (has_unknown components weights) (lef (total_weight weights) (of_ℕ 0))
            (nonempty (missing_keys components weights)) value_error value_error runtime_error
            (score_parts components weights minimum) h in
        (
          sym (ap (λ (p : ScoreParts F). nonempty p.missing) same)
              ∙ ap nonempty (parts_missing components weights minimum)
              ∙ complete,
          parts_total components weights minimum total
              (ap (λ (p : ScoreParts F). p.total) same ∙ k),
        )

    finish-InUnit :
        (config : TransitionScoreConfig F) (macro : List String) (parts : ScoreParts F)
        (t : Option F) (present : Option (Dict String F)) (r : ComposedTransitionScore F)
        (total : F)
        → finish config macro parts t present ≡ ok r
        → r.score ≡ some total
        → (t ≡ some total) × (r.missing_components ≡ parts.missing) × (r.interpretation ≢ none)
    finish-InUnit config macro parts none present r total h k = cc
    finish-InUnit config macro parts (some t) none r total h k = cc
    finish-InUnit config macro parts (some t) (some present) r total h k =
        let (band, named, h₁) = bind_ok (interpret_transition_score t config.bands) _ h in
        let same = ok-injective h₁ in
        (
          ap (λ (s : ComposedTransitionScore F). s.score) same ∙ k,
          sym (ap (λ (s : ComposedTransitionScore F). s.missing_components) same),
          λ n. let absurd = ap (λ (s : ComposedTransitionScore F). s.interpretation) same ∙ n in cc,
        )

    -- A session that is scored has no missing component, and its score is a number in [0, 1] with a
    -- band, whatever the inputs are, NaN and infinite ones included, under the laws of float
    -- comparisons.
    pub compose_transition_score-InUnit :
        (i : SessionInputs F) (config : TransitionScoreConfig F) (r : ComposedTransitionScore F)
        (total : F)
        → compose_transition_score_for_session i config ≡ ok r
        → r.score ≡ some total
        → (nonempty r.missing_components ≡ false) × InUnit total × (r.interpretation ≢ none)
    unfolding compose_transition_score_for_session
    compose_transition_score-InUnit i config r total h k =
        let (components, built, h₁) = bind_ok (components_of config.scales i) _ h in
        let (parts, computed, h₂) =
          bind_ok
            (compute_transition_score components config.weights
              config.minimum_component_weight_coverage)
            _ h₁ in
        let (summed, listed, named) = finish-InUnit config _ parts _ _ r total h₂ k in
        let (complete, unit) =
          compute_transition_score-InUnit components config.weights
            config.minimum_component_weight_coverage parts total computed summed in
        (ap nonempty listed ∙ complete, unit, named)
