-- ===== src/Strategy/Family/Inherits.antt =====
-- What a resolved constraint inherits.
use regime_detection.Prelude.Dict.{Dict, keys, get_from, lookup, get_or}
use regime_detection.Prelude.Int.{int_eq}
use regime_detection.Prelude.{
  String, ◌≡◌, refl, ap, ◌∙◌, ◌⊎◌, inl, inr, Bool, true, false, Option, none, some, [], ◌∷◌, arith,
  if◌then◌else◌, Bool-cases, ◌==◌, nat_eq, string_eq, All, ok, bool_eq,
}
use mathlib.Core.Option.{some-injective}
use mathlib.Core.Path.{subst}
use regime_detection.Strategy.{
  FamilyLimits, FamilyOverride, StrategyFamilyConstraint, StrategyFamilyConstraintsConfig,
}
use regime_detection.Strategy.Family.{
  check_baseline, pick, fields_of, pick_limits, reopens, merge, resolve_families,
  resolve_strategy_family_constraints,
}

-- A value that comes from the override where that sets one, and from the baseline otherwise.
abbrev pub Inherited : {A : Type 0} → Option A → Option A → Option A → Type 0
Inherited {A} o d v = ((x : A) → o ≡ some x → v ≡ some x) × (o ≡ none → v ≡ d)

pick-Inherited : {A : Type 0} (o d : Option A) → Inherited o d (pick o d)
pick-Inherited none d = (λ x h. cc, λ h. refl)
pick-Inherited (some v) d = (λ x h. h, λ h. cc)

module _ {F : Type 0} where
  pub record LimitsInherited (o d v : FamilyLimits F) : Type 0 where
    pub lookback : Inherited o.max_lookback_days d.max_lookback_days v.max_lookback_days
    pub holding : Inherited o.max_holding_days d.max_holding_days v.max_holding_days
    pub position : Inherited o.max_position_pct d.max_position_pct v.max_position_pct
    pub adx : Inherited o.min_adx d.min_adx v.min_adx
    pub breadth :
        Inherited o.require_breadth_confirmation d.require_breadth_confirmation
          v.require_breadth_confirmation
    pub volume :
        Inherited o.require_volume_confirmation d.require_volume_confirmation
          v.require_volume_confirmation
    pub window : Inherited o.event_window_only d.event_window_only v.event_window_only

  -- The reason of an override counts, too. Where it sets none, the baseline's is kept, but for a block
  -- that the cohort lifts: that has no reason then.
  pub record Inherits (d o : FamilyOverride F) (c : StrategyFamilyConstraint F) : Type 0 where
    pub permission : Inherited o.allowed d.allowed (some c.allowed)
    pub limits : LimitsInherited o.limits d.limits c.limits
    pub lifted : d.allowed ≡ some false → o.allowed ≡ some true → o.reason ≡ none → c.reason ≡ none
    pub reason_set : (why : String) → o.reason ≡ some why → c.reason ≡ some why
    pub reason_left :
        (d.allowed ≡ some true) ⊎ (o.allowed ≡ none) ⊎ (o.allowed ≡ some false)
        → o.reason ≡ none
        → c.reason ≡ d.reason

  pick_limits-LimitsInherited : (o d : FamilyLimits F) → LimitsInherited o d (pick_limits o d)
  pick_limits-LimitsInherited o d = record {
    lookback = pick-Inherited o.max_lookback_days d.max_lookback_days;
    holding = pick-Inherited o.max_holding_days d.max_holding_days;
    position = pick-Inherited o.max_position_pct d.max_position_pct;
    adx = pick-Inherited o.min_adx d.min_adx;
    breadth = pick-Inherited o.require_breadth_confirmation d.require_breadth_confirmation;
    volume = pick-Inherited o.require_volume_confirmation d.require_volume_confirmation;
    window = pick-Inherited o.event_window_only d.event_window_only;
  }

  merge-Inherits :
      (d : FamilyOverride F) (override : Option (FamilyOverride F)) (a : Bool)
      → d.allowed ≡ some a
      → (c : StrategyFamilyConstraint F) × (merge d override ≡ ok c)
        × Inherits d (fields_of override) c
  unfolding merge
  merge-Inherits d override a h =
      let o = fields_of override in
      (
        record {
          allowed = get_from o.allowed a;
          limits = pick_limits o.limits d.limits;
          reason = if reopens o d then none else pick o.reason d.reason;
        },
        ground arith,
        record {
          permission = ground arith;
          limits = pick_limits-LimitsInherited o.limits d.limits;
          lifted = ground arith;
          reason_set = ground arith;
          reason_left = ground arith;
        },
      )

  resolve_families-cons :
      (overrides rest : Dict String (FamilyOverride F)) (family : String) (d : FamilyOverride F)
      (c : StrategyFamilyConstraint F) (out : Dict String (StrategyFamilyConstraint F)) (a : Bool)
      → d.allowed ≡ some a
      → merge d (lookup overrides family) ≡ ok c
      → resolve_families overrides rest ≡ ok out
      → resolve_families overrides ((family, d) ∷ rest) ≡ ok ((family, c) ∷ out)
  unfolding resolve_families
  resolve_families-cons overrides rest family d c out a ha merged resolved =
      let checked : check_baseline d.allowed (merge d (lookup overrides family)) ≡ ok c =
        ap (λ x. check_baseline x (merge d (lookup overrides family))) ha ∙ merged in
      rw (checked, resolved) refl

  resolve_families-Inherits :
      (overrides baseline : Dict String (FamilyOverride F))
      → All (λ e. (a : Bool) × (e.1.allowed ≡ some a)) baseline
      → (out : Dict String (StrategyFamilyConstraint F)) × (resolve_families overrides baseline
          ≡ ok out)
        × (keys out ≡ keys baseline)
        × ((family : String) (d : FamilyOverride F)
            → lookup baseline family ≡ some d
            → (c : StrategyFamilyConstraint F) × (lookup out family ≡ some c)
              × Inherits d (fields_of (lookup overrides family)) c)
  unfolding resolve_families
  resolve_families-Inherits overrides [] h = ([], refl, refl, λ family d e. cc)
  resolve_families-Inherits overrides ((family, d) ∷ rest) ((a, ha), h) =
      let (c, merged, inherits) = merge-Inherits d (lookup overrides family) a ha in
      let (out, resolved, same_keys, others) = resolve_families-Inherits overrides rest h in
      (
        (family, c) ∷ out,
        resolve_families-cons overrides rest family d c out a ha merged resolved,
        ap (◌∷◌ family) same_keys,
        λ other d' found. elim (Bool-cases (family == other)) [
          | inl eq ↦
              let same = (string_eq.eq_test_iff family other).0 eq in
              let d-eq : d ≡ d' = some-injective _ _ (rw eq at found) in
              (
                c,
                rw eq refl,
                subst (λ (x : FamilyOverride F). Inherits x (fields_of (lookup overrides other)) c)
                    d-eq
                    (subst (λ (k : String). Inherits d (fields_of (lookup overrides k)) c) same
                      inherits),
              )
          | inr ne ↦
              let (c', found', inherits') = others other d' (rw ne at found) in
              (c', rw ne found', inherits')
        ],
      )

  -- Where every baseline entry sets `allowed`, resolution succeeds for any cohort, for exactly the
  -- families of the baseline, and each family's constraint inherits field by field: what the
  -- cohort's override sets counts, its reason included, and what it leaves unset is the baseline's, but
  -- for the reason of a block that it lifts, which has none then.
  pub resolve_strategy_family_constraints-Inherits :
      (cohort : String) (config : StrategyFamilyConstraintsConfig F)
      → All (λ e. (a : Bool) × (e.1.allowed ≡ some a)) config.default_neutral
      → let overrides = get_or config.overrides cohort [] in
        (out : Dict String (StrategyFamilyConstraint F)) × (resolve_strategy_family_constraints
            cohort config
          ≡ ok out)
        × (keys out ≡ keys config.default_neutral)
        × ((family : String) (d : FamilyOverride F)
            → lookup config.default_neutral family ≡ some d
            → (c : StrategyFamilyConstraint F) × (lookup out family ≡ some c)
              × Inherits d (fields_of (lookup overrides family)) c)
  unfolding resolve_strategy_family_constraints
  resolve_strategy_family_constraints-Inherits cohort config h =
      resolve_families-Inherits (get_or config.overrides cohort []) config.default_neutral h
