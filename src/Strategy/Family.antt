-- ===== src/Strategy/Family.antt =====
-- src/regime_detection/strategy_family_constraints.py: the constraints of a cohort, inherited field by
-- field from the neutral baseline.
mod Inherits
mod Tests
use regime_detection.Prelude.Dict.{Dict, lookup, get_or}
use regime_detection.Prelude.Int.{int_eq}
use regime_detection.Prelude.{
  String, Bool, true, false, ◌&&◌, Option, none, some, [], ◌∷◌, if◌then◌else◌, nat_eq, string_eq,
  is_some_of, value_error, validation_error, Result, ok, err, ◌>>=◌, ◌>>◌, bool_eq,
}
use regime_detection.Strategy.{
  FamilyLimits, FamilyOverride, StrategyFamilyConstraint, StrategyFamilyConstraintsConfig,
}

-- An override that is set wins.
abbrev pub pick {ℓ} : {A : Type ℓ} → Option A → Option A → Option A
pick (some v) default = some v
pick none default = default

abbrev is_unset : Option String → Bool
is_unset none = true
is_unset (some r) = false

module _ {ℓ} {F : Type ℓ} where
  abbrev pub no_limits : FamilyLimits F
  no_limits = record {
    max_lookback_days = none;
    max_holding_days = none;
    max_position_pct = none;
    min_adx = none;
    require_breadth_confirmation = none;
    require_volume_confirmation = none;
    event_window_only = none;
  }

  -- `None` as an override sets no field.
  abbrev pub fields_of : Option (FamilyOverride F) → FamilyOverride F
  fields_of none = record { allowed = none; limits = no_limits; reason = none }
  fields_of (some o) = o

  abbrev pub pick_limits : FamilyLimits F → FamilyLimits F → FamilyLimits F
  pick_limits o d = record {
    max_lookback_days = pick o.max_lookback_days d.max_lookback_days;
    max_holding_days = pick o.max_holding_days d.max_holding_days;
    max_position_pct = pick o.max_position_pct d.max_position_pct;
    min_adx = pick o.min_adx d.min_adx;
    require_breadth_confirmation =
        pick o.require_breadth_confirmation d.require_breadth_confirmation;
    require_volume_confirmation = pick o.require_volume_confirmation d.require_volume_confirmation;
    event_window_only = pick o.event_window_only d.event_window_only;
  }

  -- The override reopens a family that the baseline blocks, and gives no reason of its own.
  abbrev pub reopens : FamilyOverride F → FamilyOverride F → Bool
  reopens o d = is_some_of d.allowed false && is_some_of o.allowed true && is_unset o.reason

  -- `StrategyFamilyConstraint(**values)` refuses a missing `allowed`.
  constraint_of : Option Bool → FamilyLimits F → Option String → Result (StrategyFamilyConstraint F)
  constraint_of none limits why = err validation_error
  constraint_of (some a) limits why = ok (record { allowed = a; limits = limits; reason = why })

  unfoldable pub merge :
      FamilyOverride F → Option (FamilyOverride F) → Result (StrategyFamilyConstraint F)
  unfolding constraint_of
  merge d override =
      let o = fields_of override in
      constraint_of (pick o.allowed d.allowed) (pick_limits o.limits d.limits)
        (if reopens o d then none else pick o.reason d.reason)

  -- The baseline contract: `allowed` must be set.
  abbrev pub check_baseline :
      Option Bool → Result (StrategyFamilyConstraint F) → Result (StrategyFamilyConstraint F)
  check_baseline none merged = err value_error
  check_baseline (some a) merged = merged

  -- The loop over the baseline's items, given the cohort's overrides.
  unfoldable pub resolve_families :
      Dict String (FamilyOverride F)
      → Dict String (FamilyOverride F)
      → Result (Dict String (StrategyFamilyConstraint F))
  unfolding merge
  resolve_families cohort_overrides [] = ok []
  resolve_families cohort_overrides ((family, d) ∷ rest) = do
    c ← check_baseline d.allowed (merge d (lookup cohort_overrides family))
    cs ← resolve_families cohort_overrides rest
    ok ((family, c) ∷ cs)

  unfoldable pub resolve_strategy_family_constraints :
      String → StrategyFamilyConstraintsConfig F → Result (Dict String (StrategyFamilyConstraint F))
  unfolding resolve_families
  resolve_strategy_family_constraints active_cohort config =
      resolve_families (get_or config.overrides active_cohort []) config.default_neutral
