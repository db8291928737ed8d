-- ===== src/Strategy/Actions.antt =====
-- The event rules of src/regime_detection/strategy_response.py, with their validation in
-- _config_evidence_strategy.py.
use regime_detection.Prelude.Int.{int_eq}
use regime_detection.Prelude.{
  is_set, String, Bool, true, false, not, ◌||◌, Option, none, some, List, [], ◌∷◌, ◌++◌,
  if◌then◌else◌, nat_eq, string_eq, bool_eq, is_some_of, contains, any, value_error, Result, ◌>>◌,
  raise_if,
}
use regime_detection.Prelude.Dict.{Dict}
use regime_detection.Float.{Float, minf}

pub record StrategyEventModifierRule {ℓ} (F : Type ℓ) : Type ℓ where
  pub labels : List String
  pub position_size_cap : Option F
  pub leverage_allowed : Option Bool
  pub allow_leverage_expansion : Option Bool
  pub require_confirmation_for_new_longs : Option Bool
  pub prefer_cash_or_hedges : Option Bool

-- What `_apply_event_calendar_modifiers` takes and returns, with the list that it extends.
pub record EventActions {ℓ} (F : Type ℓ) : Type ℓ where
  pub position_size_multiplier : F
  pub leverage_allowed : Bool
  pub allow_leverage_expansion : Option Bool
  pub require_confirmation_for_new_longs : Bool
  pub prefer_cash_or_hedges : Option Bool
  pub modifiers : List String

abbrev pub or_keep {ℓ} : {A : Type ℓ} → Option A → A → A
or_keep none old = old
or_keep (some new) old = new

abbrev pub or_keep? {ℓ} : {A : Type ℓ} → Option A → Option A → Option A
or_keep? none old = old
or_keep? (some new) old = some new

module _ {ℓ} {F : Type ℓ} where
  -- `StrategyEventModifierRule._validate_action_fields`
  unfoldable pub validate_action_fields : StrategyEventModifierRule F → Result (Unit {0})
  validate_action_fields rule = do
    raise_if
        (not (
          is_set rule.position_size_cap
          || is_set rule.leverage_allowed
          || is_set rule.allow_leverage_expansion
          || is_set rule.require_confirmation_for_new_longs
          || is_set rule.prefer_cash_or_hedges))
        value_error
    raise_if
        (is_some_of rule.leverage_allowed true
          || is_some_of rule.allow_leverage_expansion true
          || is_some_of rule.require_confirmation_for_new_longs false
          || is_some_of rule.prefer_cash_or_hedges false)
        value_error

module _ {ℓ} {F : Type ℓ} ⦃f : Float F⦄ where
  abbrev pub capped : F → Option F → F
  capped size none = size
  capped size (some cap) = minf size cap

  -- One rule whose labels meet the active ones.
  unfoldable pub apply_rule : String → StrategyEventModifierRule F → EventActions F → EventActions F
  apply_rule name rule a = record {
    position_size_multiplier = capped a.position_size_multiplier rule.position_size_cap;
    leverage_allowed = or_keep rule.leverage_allowed a.leverage_allowed;
    allow_leverage_expansion = or_keep? rule.allow_leverage_expansion a.allow_leverage_expansion;
    require_confirmation_for_new_longs =
        or_keep rule.require_confirmation_for_new_longs a.require_confirmation_for_new_longs;
    prefer_cash_or_hedges = or_keep? rule.prefer_cash_or_hedges a.prefer_cash_or_hedges;
    modifiers = a.modifiers ++ (name ∷ []);
  }

  -- The loop over the rules.
  unfoldable pub apply_rules :
      List String → Dict String (StrategyEventModifierRule F) → EventActions F → EventActions F
  unfolding apply_rule
  apply_rules active [] a = a
  apply_rules active ((name, rule) ∷ rules) a =
      apply_rules active rules
        (if any (contains active) rule.labels then apply_rule name rule a else a)

  unfoldable pub apply_event_calendar_modifiers :
      List String
      → Option (Dict String (StrategyEventModifierRule F))
      → EventActions F
      → EventActions F
  unfolding apply_rules
  apply_event_calendar_modifiers [] config a = a
  apply_event_calendar_modifiers (l ∷ ls) none a = a
  apply_event_calendar_modifiers (l ∷ ls) (some rules) a = apply_rules (l ∷ ls) rules a
