-- ===== src/Strategy/Response/Scenarios.antt =====
-- What the response grants under stress and without data.
use regime_detection.Prelude.Dict.{Dict}
use regime_detection.Prelude.Int.{pos, int_eq}
use regime_detection.Prelude.{
  String, ◌≡◌, refl, ◌∙◌, inl, inr, Bool, true, false, not, ◌&&◌, ◌||◌, Option, none, some, List,
  [], ◌∷◌, arith, if◌then◌else◌, Bool-cases, ◌==◌, nat_eq, string_eq, bool_eq,
}
use regime_detection.Float.{Float, IsFloat}
use regime_detection.Strategy.{StrategyResponse}
use regime_detection.Strategy.Actions.{
  StrategyEventModifierRule, EventActions, apply_event_calendar_modifiers,
}
use regime_detection.Strategy.Response.{
  RegimeLabels, actions_of, hundredths, unmapped_response, scenario_response, is_unmapped,
  build_strategy_response, bull_healthy_low_vol, recovery_attempt, sideways_chop, bull_fragile,
  transition_weakening, transition_warning, high_transition_risk, sideways_stress, bear_stress,
  crisis_stress,
}
use regime_detection.Strategy.Response.Sizes.{
  SizeWithin, literal-SizeWithin, choose-SizeWithin, scenario_response-SizeWithin,
}
use regime_detection.Strategy.Response.Events.{
  Tightens, Validated, Tightens-refl, apply_event_calendar_modifiers-Tightens,
}

-- The states under which the code switches leverage off.
abbrev pub unleveraged : String → Bool
unleveraged state =
    state == "recovery_attempt"
    || state == "high_transition_risk"
    || state == "bear_stress"
    || state == "crisis"

if_same {ℓ} : {A : Type ℓ} (b : Bool) (x : A) → (if b then x else x) ≡ x
if_same true x = refl
if_same false x = refl

if_off : (b c : Bool) → (if b then false else c) ≡ (not b && c)
if_off true c = refl
if_off false c = refl

leverage_if {ℓ} :
    {F : Type ℓ} (b : Bool) (x y : StrategyResponse F)
    → (if b then x else y).leverage_allowed ≡ (if b then x.leverage_allowed else y.leverage_allowed)
leverage_if true x y = refl
leverage_if false x y = refl

module _ (F : Type 0) ⦃f : Float F⦄ where
  -- The scenarios leave leverage on exactly outside the states that switch it off, whatever the labels of the axes are.
  pub scenario_response_leverage :
      (l : RegimeLabels) (state : String)
      → (scenario_response {F = F} l state).leverage_allowed ≡ not (unleveraged state)
  unfolding scenario_response bull_healthy_low_vol sideways_chop recovery_attempt bull_fragile
      transition_weakening transition_warning high_transition_risk sideways_stress bear_stress
      crisis_stress
  scenario_response_leverage l state = simp (leverage_if, if_same, if_off) (ground arith)

module _ {F : Type 0} ⦃f : Float F⦄ (laws : IsFloat F) where
  open laws use {le_trans, dec_number, dec_le}

  -- The response before the event rules.
  abbrev pub base_response : RegimeLabels → String → StrategyResponse F
  base_response l state =
      if is_unmapped l state then unmapped_response else scenario_response l state

  abbrev pub ValidConfig : Option (Dict String (StrategyEventModifierRule F)) → Type 0
  ValidConfig none = Unit
  ValidConfig (some rules) = Validated rules

  events-Tightens :
      (events : List String) (config : Option (Dict String (StrategyEventModifierRule F)))
      (a : EventActions F)
      → ValidConfig config
      → f.is_nan a.position_size_multiplier ≡ false
      → Tightens a (apply_event_calendar_modifiers events config a)
  unfolding apply_event_calendar_modifiers
  events-Tightens [] none a valid number = Tightens-refl laws a number
  events-Tightens (e ∷ es) none a valid number = Tightens-refl laws a number
  events-Tightens [] (some rules) a valid number = Tightens-refl laws a number
  events-Tightens (e ∷ es) (some rules) a valid number =
      apply_event_calendar_modifiers-Tightens laws (e ∷ es) rules a valid number

  base_response-SizeWithin :
      (l : RegimeLabels) (state : String)
      → SizeWithin {F = F} (hundredths 100) (base_response l state)
  base_response-SizeWithin l state =
      choose-SizeWithin laws (is_unmapped l state) _ _ (literal-SizeWithin laws 75 refl)
        (scenario_response-SizeWithin laws l state)

  build-Tightens :
      (l : RegimeLabels) (state : String) (events : List String)
      (config : Option (Dict String (StrategyEventModifierRule F)))
      → ValidConfig config
      → Tightens
          (actions_of (base_response l state))
          (actions_of (build_strategy_response l state events config))
  unfolding build_strategy_response
  build-Tightens l state events config valid =
      events-Tightens events config (actions_of (base_response l state)) valid
        (base_response-SizeWithin l state).1

  -- With validated event rules and under the laws of float comparisons, the position size is a
  -- number and at most 1.0, whatever the labels, the composite state and the active events are.
  pub build_strategy_response-SizeWithin :
      (l : RegimeLabels) (state : String) (events : List String)
      (config : Option (Dict String (StrategyEventModifierRule F)))
      → ValidConfig config
      → SizeWithin {F = F} (hundredths 100) (build_strategy_response l state events config)
  build_strategy_response-SizeWithin l state events config valid =
      let tighter = build-Tightens l state events config valid in
      (le_trans _ _ _ tighter.size_le (base_response-SizeWithin l state).0, tighter.size_number)

  base_response_leverage :
      (l : RegimeLabels) (state : String)
      → unleveraged state || is_unmapped l state ≡ true
      → (base_response l state).leverage_allowed ≡ false
  base_response_leverage l state h = elim (Bool-cases (is_unmapped l state)) [
    | inl out ↦ rw out refl
    | inr mapped ↦ rw mapped (scenario_response_leverage F l state ∙ ground arith)
  ]

  -- With validated event rules and under the laws of float comparisons, leverage is not allowed in
  -- the states recovery_attempt, high_transition_risk, bear_stress and crisis, nor where the state
  -- is insufficient_data or a label is unknown, whatever events are active.
  pub build_strategy_response-unleveraged :
      (l : RegimeLabels) (state : String) (events : List String)
      (config : Option (Dict String (StrategyEventModifierRule F)))
      → ValidConfig config
      → unleveraged state || is_unmapped l state ≡ true
      → (build_strategy_response l state events config).leverage_allowed ≡ false
  build_strategy_response-unleveraged l state events config valid h =
      (build-Tightens l state events config valid).leverage (base_response_leverage l state h)

  -- With validated event rules and under the laws of float comparisons, a regime that is unknown or
  -- insufficient gets a response of at most 0.75 of the size, which asks for confirmation of new
  -- longs and is logged for review.
  pub build_strategy_response_unmapped :
      (l : RegimeLabels) (state : String) (events : List String)
      (config : Option (Dict String (StrategyEventModifierRule F)))
      → ValidConfig config
      → is_unmapped l state ≡ true
      → SizeWithin {F = F} (hundredths 75) (build_strategy_response l state events config)
        × ((build_strategy_response l state events config).require_confirmation_for_new_longs
            ≡ true)
        × ((build_strategy_response l state events config).log_for_review ≡ true)
  unfolding build_strategy_response
  build_strategy_response_unmapped l state events config valid h =
      let tighter =
        events-Tightens events config (actions_of unmapped_response) valid
          (dec_number (pos 75) 2) in
      rw h ((tighter.size_le, tighter.size_number), tighter.confirmation refl, refl)
