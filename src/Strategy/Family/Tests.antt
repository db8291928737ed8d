-- ===== src/Strategy/Family/Tests.antt =====
-- A resolution of family constraints, and the theorem there.
use regime_detection.Prelude.Dict.{Dict, keys, lookup, get_or}
use regime_detection.Prelude.Int.{pos, int_eq}
use regime_detection.Prelude.{
  String, ◌≡◌, refl, true, false, none, some, [], ◌∷◌, nat_eq, string_eq, bool_eq, ok,
}
use regime_detection.Float.{Fixed, fixed_float}
use regime_detection.Strategy.{
  FamilyOverride, StrategyFamilyConstraint, StrategyFamilyConstraintsConfig,
}
use regime_detection.Strategy.Family.{no_limits, fields_of, resolve_strategy_family_constraints}
use regime_detection.Strategy.Family.Inherits.{
  Inherits, resolve_strategy_family_constraints-Inherits,
}

abbrev config : StrategyFamilyConstraintsConfig Fixed
config = record {
  default_neutral =
      (
        "short_vol",
        record { allowed = some false; limits = no_limits; reason = some "default_off" },
      )
      ∷ (
        "breakout",
        record {
          allowed = some true;
          limits = record no_limits { min_adx = some (pos 20); max_holding_days = some (pos 15) };
          reason = none;
        },
      )
      ∷ [];
  overrides =
      (
        "bull_low_vol_specialist",
        ("short_vol", record { allowed = some true; limits = no_limits; reason = none }) ∷ [],
      )
      ∷ [];
}

lifts :
    resolve_strategy_family_constraints "bull_low_vol_specialist" config
    ≡ ok (
        ("short_vol", record { allowed = true; limits = no_limits; reason = none })
        ∷ (
          "breakout",
          record {
            allowed = true;
            limits = record no_limits { min_adx = some (pos 20); max_holding_days = some (pos 15) };
            reason = none;
          },
        )
        ∷ [])
unfolding resolve_strategy_family_constraints
lifts = refl

resolve_strategy_family_constraints-Inherits_example :
    (out : Dict String (StrategyFamilyConstraint Fixed)) × (resolve_strategy_family_constraints
        "bull_low_vol_specialist" config
      ≡ ok out)
    × (keys out ≡ "short_vol" ∷ "breakout" ∷ [])
    × ((family : String) (d : FamilyOverride Fixed)
        → lookup config.default_neutral family ≡ some d
        → (c : StrategyFamilyConstraint Fixed) × (lookup out family ≡ some c)
          × Inherits d
              (fields_of (lookup (get_or config.overrides "bull_low_vol_specialist" []) family))
              c)
resolve_strategy_family_constraints-Inherits_example =
    resolve_strategy_family_constraints-Inherits "bull_low_vol_specialist" config
      ((false, refl), ((true, refl), tt))
