-- ===== src/Strategy/Response/Events.antt =====
-- Event rules that pass their validation only tighten.
use regime_detection.Prelude.Dict.{Dict}
use regime_detection.Prelude.Int.{int_eq}
use regime_detection.Prelude.{
  String, ◌≡◌, ◌≢◌, inl, inr, true, false, Option, none, some, List, [], ◌∷◌, arith, Bool-cases,
  nat_eq, string_eq, bool_eq, contains, All, any, ok,
}
use regime_detection.Float.{Float, IsFloat}
use regime_detection.Float.Order.{le_refl, minf-le}
use regime_detection.Strategy.Actions.{
  StrategyEventModifierRule, EventActions, validate_action_fields, capped, apply_rule, apply_rules,
  apply_event_calendar_modifiers,
}

module _ {F : Type 0} ⦃f : Float F⦄ where
  -- The second is as strict as the first in every field that a rule can change.
  pub record Tightens (a b : EventActions F) : Type 0 where
    pub size_le : f.le b.position_size_multiplier a.position_size_multiplier ≡ true
    pub size_number : f.is_nan b.position_size_multiplier ≡ false
    pub leverage : a.leverage_allowed ≡ false → b.leverage_allowed ≡ false
    pub expansion : a.allow_leverage_expansion ≢ some true → b.allow_leverage_expansion ≢ some true
    pub confirmation :
        a.require_confirmation_for_new_longs ≡ true → b.require_confirmation_for_new_longs ≡ true
    pub hedges : a.prefer_cash_or_hedges ≡ some true → b.prefer_cash_or_hedges ≡ some true

  abbrev pub Validated : Dict String (StrategyEventModifierRule F) → Type 0
  Validated = All (λ e. validate_action_fields e.1 ≡ ok tt)

  module _ (laws : IsFloat F) where
    open laws use {le_trans}

    capped-le :
        (x : F) (cap : Option F)
        → f.is_nan x ≡ false
        → (f.le (capped x cap) x ≡ true) × (f.is_nan (capped x cap) ≡ false)
    capped-le x none number = (le_refl laws x number, number)
    capped-le x (some cap) number = minf-le laws x cap number

    apply_rule-Tightens :
        (name : String) (rule : StrategyEventModifierRule F) (a : EventActions F)
        → validate_action_fields rule ≡ ok tt
        → f.is_nan a.position_size_multiplier ≡ false
        → Tightens a (apply_rule name rule a)
    unfolding apply_rule validate_action_fields
    apply_rule-Tightens name rule a valid number = record {
      size_le = (capped-le a.position_size_multiplier rule.position_size_cap number).0;
      size_number = (capped-le a.position_size_multiplier rule.position_size_cap number).1;
      leverage = ground arith;
      expansion = ground arith;
      confirmation = ground arith;
      hedges = ground arith;
    }

    pub Tightens-refl :
        (a : EventActions F) → f.is_nan a.position_size_multiplier ≡ false → Tightens a a
    Tightens-refl a number = record {
      size_le = le_refl laws a.position_size_multiplier number;
      size_number = number;
      leverage = λ h. h;
      expansion = λ h. h;
      confirmation = λ h. h;
      hedges = λ h. h;
    }

    Tightens-trans : (a b c : EventActions F) → Tightens a b → Tightens b c → Tightens a c
    Tightens-trans a b c p q = record {
      size_le = le_trans _ _ _ q.size_le p.size_le;
      size_number = q.size_number;
      leverage = λ h. q.leverage (p.leverage h);
      expansion = λ h. q.expansion (p.expansion h);
      confirmation = λ h. q.confirmation (p.confirmation h);
      hedges = λ h. q.hedges (p.hedges h);
    }

    apply_rules-Tightens :
        (active : List String) (rules : Dict String (StrategyEventModifierRule F))
        (a : EventActions F)
        → Validated rules
        → f.is_nan a.position_size_multiplier ≡ false
        → Tightens a (apply_rules active rules a)
    unfolding apply_rules
    apply_rules-Tightens active [] a valid number = Tightens-refl a number
    apply_rules-Tightens active ((name, rule) ∷ rules) a (v, valid) number =
        elim (Bool-cases (any (contains active) rule.labels)) [
          | inl meets ↦
              let first = apply_rule-Tightens name rule a v number in
              rw meets (
                Tightens-trans a (apply_rule name rule a) _ first (
                  apply_rules-Tightens active rules (apply_rule name rule a) valid
                    first.size_number))
          | inr misses ↦ rw misses (apply_rules-Tightens active rules a valid number)
        ]

    -- Validated event rules never loosen. Under the laws of float comparisons and from a size that
    -- is a number, whatever events are active, the position size does not grow, leverage that is
    -- off stays off, an expansion that is not granted is not granted by a rule, and confirmation
    -- and hedging that are on stay on.
    pub apply_event_calendar_modifiers-Tightens :
        (events : List String) (rules : Dict String (StrategyEventModifierRule F))
        (a : EventActions F)
        → Validated rules
        → f.is_nan a.position_size_multiplier ≡ false
        → Tightens a (apply_event_calendar_modifiers events (some rules) a)
    unfolding apply_event_calendar_modifiers
    apply_event_calendar_modifiers-Tightens [] rules a valid number = Tightens-refl a number
    apply_event_calendar_modifiers-Tightens (e ∷ es) rules a valid number =
        apply_rules-Tightens (e ∷ es) rules a valid number
