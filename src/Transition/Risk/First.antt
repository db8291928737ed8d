-- ===== src/Transition/Risk/First.antt =====
-- The state is the one of the first rule that was triggered.
use regime_detection.Prelude.Int.{int_eq}
use regime_detection.Prelude.{
  test_if, same_if, String, ◌≡◌, refl, sym, ap, ◌∙◌, inl, inr, Bool, true, false, not, ◌&&◌, ◌||◌,
  Option, none, some, List, [], ◌∷◌, arith, if◌then◌else◌, Bool-cases, ◌==◌, nat_eq, string_eq,
  bool_eq, All, runtime_error, validation_error, ok, raise_if_ok, bind_ok, ok-injective,
}
use regime_detection.Prelude.Dict.{Dict, get_from, or_key_error, lookup, get}
use mathlib.Core.Path.{subst}
use regime_detection.Float.{Float, lef, of_ℕ}
use regime_detection.Transition.Score.{ComposedTransitionScore}
use regime_detection.Transition.Risk.{
  score_band_to_state, append_if, TransitionRuleFlags, TransitionRiskOutput,
  select_transition_state, triggered_rules_of, compose_ready, compose_transition_risk_output,
}

-- The state that a rule stands for; the cooldown counts only over a stable score.
abbrev pub state_of_rule : String → String → Option String
state_of_rule score_state rule =
    if rule == "sideways_stress" || rule == "event_transition_watch"
    then some "watch"
    else (if rule == "post_switch_cooldown"
        then (if score_state == "stable" then some "watch" else none)
        else some rule)

abbrev pub first_state : String → List String → String
first_state score_state [] = score_state
first_state score_state (rule ∷ rules) =
    let later = first_state score_state rules in get_from (state_of_rule score_state rule) later

first_state-append_if :
    (score_state : String) (test : Bool) (rule : String) (rest : List String)
    → first_state score_state (append_if test rule rest) ≡ (
        if test
        then get_from (state_of_rule score_state rule) (first_state score_state rest)
        else first_state score_state rest)
first_state-append_if score_state true rule rest = refl
first_state-append_if score_state false rule rest = refl

cooldown_cases :
    (p stable : Bool) (rest : String)
    → (if p && stable then "watch" else rest)
      ≡ (if p then get_from (if stable then some "watch" else none) rest else rest)
cooldown_cases true true rest = refl
cooldown_cases true false rest = refl
cooldown_cases false stable rest = refl

-- The state is that of the first triggered rule, in the order in which the rules are reported, where
-- the cooldown is passed over unless the score is stable, and that of the score where no rule is
-- left.
pub select_transition_state-eq-first_state :
    (score_state : String) (flags : TransitionRuleFlags)
    → select_transition_state score_state flags ≡ first_state score_state (triggered_rules_of flags)
unfolding select_transition_state triggered_rules_of
select_transition_state-eq-first_state score_state flags =
    simp (first_state-append_if, cooldown_cases)

select_available :
    (score_state : String) (flags : TransitionRuleFlags)
    → flags.insufficient_data ≡ false
    → (score_state == "insufficient_data") ≡ false
    → (select_transition_state score_state flags == "insufficient_data") ≡ false
unfolding select_transition_state
select_available score_state flags there known = simp (test_if, same_if, there, known)

-- Every state that a band maps to is a published one.
entry_available :
    (bands : Dict String String) (band state : String)
    → All (λ e. (e.1 == "insufficient_data") ≡ false) bands
    → lookup bands band ≡ some state
    → (state == "insufficient_data") ≡ false
entry_available [] band state every h = cc
entry_available ((key, value) ∷ rest) band state (now, every) h = elim (Bool-cases (key == band)) [
  | inl here ↦
      let found = rw here at h in
      let same : value ≡ state = cc in subst (λ x. (x == "insufficient_data") ≡ false) same now
  | inr later ↦ entry_available rest band state every (rw later at h)
]

found_ok {ℓ} : {A : Type ℓ} (o : Option A) (a : A) → or_key_error o ≡ ok a → o ≡ some a
found_ok none a h = cc
found_ok (some b) a h = ap some (ok-injective h)

band_available :
    (band state : String)
    → get score_band_to_state band ≡ ok state
    → (state == "insufficient_data") ≡ false
band_available band state h =
    entry_available score_band_to_state band state (refl, (refl, (refl, (refl, tt))))
      (found_ok (lookup score_band_to_state band) state h)

module _ {F : Type 0} ⦃f : Float F⦄ where
  ready_publishes :
      (composed : ComposedTransitionScore F) (flags : TransitionRuleFlags) (minimum : F)
      (score : Option F) (interpretation : Option String) (components : Option (Dict String F))
      (out : TransitionRiskOutput F)
      → compose_ready composed flags minimum score interpretation components ≡ ok out
      → (flags.insufficient_data ≡ false)
        × ((out.state == "insufficient_data") ≡ false)
        × (out.classification_status ≡ "classified")
        × (f.le (of_ℕ 0) out.score && f.le out.score (of_ℕ 1) ≡ true)
        × (out.triggered_rules ≡ triggered_rules_of flags)
  unfolding compose_ready
  ready_publishes composed flags minimum (some s) (some band) (some c) out h =
      let (there, h₁) = raise_if_ok flags.insufficient_data runtime_error _ h in
      let (state, banded, h₂) = bind_ok (get score_band_to_state band) _ h₁ in
      let (valid, h₃) =
        raise_if_ok (not (lef (of_ℕ 0) s && lef s (of_ℕ 1))) validation_error _ h₂ in
      let same = ok-injective h₃ in
      let available = select_available state flags there (band_available band state banded) in
      (
        there,
        subst (λ x. (x == "insufficient_data") ≡ false)
            (ap (λ (o : TransitionRiskOutput F). o.state) same) available,
        sym (ap (λ (o : TransitionRiskOutput F). o.classification_status) same) ∙ rw available refl,
        sym (
              ap (λ (o : TransitionRiskOutput F). f.le (of_ℕ 0) o.score && f.le o.score (of_ℕ 1))
                same)
            ∙ ground arith,
        sym (ap (λ (o : TransitionRiskOutput F). o.triggered_rules) same),
      )
  ready_publishes composed flags minimum none interpretation components out h = cc
  ready_publishes composed flags minimum (some s) none components out h = cc
  ready_publishes composed flags minimum (some s) (some band) none out h = cc

  -- An output is published only where the inputs suffice: its state is never insufficient_data, it is
  -- classified, its score is in [0, 1] and it reports the rules that the flags trigger.
  pub compose_transition_risk_output_publishes :
      (composed : ComposedTransitionScore F) (flags : TransitionRuleFlags) (minimum : F)
      (out : TransitionRiskOutput F)
      → compose_transition_risk_output composed flags minimum ≡ ok out
      → (flags.insufficient_data ≡ false)
        × ((out.state == "insufficient_data") ≡ false)
        × (out.classification_status ≡ "classified")
        × (f.le (of_ℕ 0) out.score && f.le out.score (of_ℕ 1) ≡ true)
        × (out.triggered_rules ≡ triggered_rules_of flags)
  unfolding compose_transition_risk_output
  compose_transition_risk_output_publishes composed flags minimum out h =
      ready_publishes composed flags minimum composed.score composed.interpretation
        composed.components out h
