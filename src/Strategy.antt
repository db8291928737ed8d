-- ===== src/Strategy.antt =====
-- The strategy layer: the records of src/regime_detection/strategy_models.py and of
-- _config_evidence_strategy.py, and its three resolvers as children.
pub mod Family
pub mod Effective
pub mod Actions
pub mod Response
use regime_detection.Prelude.Dict.{Dict}
use regime_detection.Prelude.Int.{ℤ}
use regime_detection.Prelude.{String, Bool, Option, List, [], ◌∷◌}

pub record StrategyResponse {ℓ} (F : Type ℓ) : Type ℓ where
  pub position_size_multiplier : F
  pub allow_trend_following : Bool
  pub allow_mean_reversion : Bool
  pub leverage_allowed : Bool
  pub allow_buy_dip : Bool
  pub allow_breakout : Bool
  pub allow_shorts : Bool
  pub require_confirmation_for_new_longs : Bool
  pub require_confirmation_for_shorts : Bool
  pub log_for_review : Bool
  pub modifiers_applied : List String
  pub hard_max_loss_required : Option Bool
  pub block_weak_signals : Option Bool
  pub prefer_cash_or_hedges : Option Bool
  pub take_profit_faster : Option Bool
  pub allow_leverage_expansion : Option Bool
  pub require_breadth_confirmation : Option Bool
  pub reason : Option String

-- The fields that `FamilyOverride`, `StrategyFamilyConstraint` and the effective constraint share.
pub record FamilyLimits {ℓ} (F : Type ℓ) : Type ℓ where
  pub max_lookback_days : Option ℤ
  pub max_holding_days : Option ℤ
  pub max_position_pct : Option F
  pub min_adx : Option ℤ
  pub require_breadth_confirmation : Option Bool
  pub require_volume_confirmation : Option Bool
  pub event_window_only : Option Bool

pub record FamilyOverride {ℓ} (F : Type ℓ) : Type ℓ where
  pub allowed : Option Bool
  pub limits : FamilyLimits F
  pub reason : Option String

pub record StrategyFamilyConstraint {ℓ} (F : Type ℓ) : Type ℓ where
  pub allowed : Bool
  pub limits : FamilyLimits F
  pub reason : Option String

pub record StrategyFamilyConstraintsConfig {ℓ} (F : Type ℓ) : Type ℓ where
  pub default_neutral : Dict String (FamilyOverride F)
  pub overrides : Dict String (Dict String (FamilyOverride F))

pub record EffectiveStrategyConstraint {ℓ} (F : Type ℓ) : Type ℓ where
  pub family : String
  pub allowed : Bool
  pub sources : List String
  pub blocking_reasons : List String
  pub position_size_multiplier : F
  pub leverage_allowed : Bool
  pub require_confirmation_for_new_longs : Bool
  pub require_confirmation_for_shorts : Bool
  pub limits : FamilyLimits F

-- `STRATEGY_FAMILIES`
abbrev pub strategy_families : List String
strategy_families =
    "trend_following" ∷ "mean_reversion" ∷ "breakout" ∷ "short_vol" ∷ "long_vol" ∷ []
