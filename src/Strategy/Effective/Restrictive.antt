-- ===== src/Strategy/Effective/Restrictive.antt =====
-- The most restrictive source wins, and no blocked mode is left out.
use regime_detection.Prelude.Dict.{Dict, lookup}
use regime_detection.Prelude.Int.{int_eq}
use regime_detection.Prelude.{
  String, ◌≡◌, refl, sym, ap, ◌∙◌, ◌↔◌, inl, inr, Bool, true, false, ◌&&◌, ◌||◌, Option, none, some,
  List, [], ◌∷◌, ◌++◌, arith, if◌then◌else◌, Bool-cases, ◌==◌, nat_eq, string_eq, bool_eq, contains,
}
use regime_detection.CohortRouting.{AgentRouting}
use regime_detection.Strategy.{
  StrategyResponse, StrategyFamilyConstraint, EffectiveStrategyConstraint, strategy_families,
}
use regime_detection.Strategy.Effective.Families.{contains-all_families}
use mathlib.Core.Option.{some-injective}
use mathlib.Core.Path.{subst}
use mathlib.Core.Bool.{false≢true}
use regime_detection.Strategy.Effective.{
  response_allows, constraint_allows, routing_allows, response_families, blocked_modes,
  allow_fields, response_reasons, constraint_reasons, routing_reasons, resolve_one, all_families,
  constraint_for, resolve_each, resolve_effective_strategy_constraints,
}

response-parts :
    (why : Option String) (f : Option (String × Bool))
    → ((response_allows f ≡ true)
        ↔ ((field : String) (allowed : Bool) → f ≡ some (field, allowed) → allowed ≡ true))
      × ((response_allows f ≡ true) ↔ (response_reasons why f ≡ []))
unfolding response_allows response_reasons
response-parts why none = ((λ h field allowed e. cc, λ h. refl), (λ h. refl, λ h. refl))
response-parts why (some (name, true)) = (
  (λ h field allowed e. ap (λ x. x.1) (sym (some-injective _ _ e)), λ h. refl),
  (λ h. refl, λ h. refl),
)
response-parts why (some (name, false)) =
    ((λ h field allowed e. cc, λ h. h name false refl), (λ h. cc, λ h. cc))

routing-parts :
    (routing : Option AgentRouting) (family : String)
    → let blocked = contains (blocked_modes routing) family in
      ((routing_allows routing blocked ≡ true) ↔ (blocked ≡ false))
      × ((routing_allows routing blocked ≡ true) ↔ (routing_reasons routing blocked ≡ []))
unfolding routing_allows routing_reasons
routing-parts none family = ((λ h. refl, λ h. refl), (λ h. refl, λ h. refl))
routing-parts (some r) family = elim (Bool-cases (contains r.blocked_strategy_modes family)) [
  | inl blocked ↦ rw blocked ((λ h. cc, λ h. cc), (λ h. cc, λ h. cc))
  | inr free ↦ rw free ((λ h. refl, λ h. refl), (λ h. refl, λ h. refl))
]

and_true : (a b c : Bool) → (a && b && c) ≡ true → (a ≡ true) × (b ≡ true) × (c ≡ true)
and_true a b c h = ground arith

true_and : (a b c : Bool) → a ≡ true → b ≡ true → c ≡ true → (a && b && c) ≡ true
true_and a b c x y z = ground arith

no_reasons : (xs ys zs : List String) → xs ≡ [] → ys ≡ [] → zs ≡ [] → xs ++ (ys ++ zs) ≡ []
no_reasons xs ys zs x y z = rw (x, y, z) refl

reasons_none : (xs ys zs : List String) → xs ++ (ys ++ zs) ≡ [] → (xs ≡ []) × (ys ≡ []) × (zs ≡ [])
reasons_none [] [] zs h = (refl, refl, h)
reasons_none [] (y ∷ ys) zs h = cc
reasons_none (x ∷ xs) ys zs h = cc

not_true : (b : Bool) → ¬ (b ≡ true) → b ≡ false
not_true true h = absurd (h refl)
not_true false h = refl

none≢some {ℓ} : {A : Type ℓ} {a : A} → none ≡ some a → ⊥
none≢some h = cc

module _ {F : Type 0} where
  -- What the three sources say of a family.
  pub record Permits (r : StrategyResponse F) (routing : Option AgentRouting)
      (constraints : Option (Dict String (StrategyFamilyConstraint F))) (family : String)
      : Type 0 where
    pub response :
        (field : String) (allowed : Bool)
        → lookup (allow_fields r) family ≡ some (field, allowed)
        → allowed ≡ true
    pub constraint :
        (c : StrategyFamilyConstraint F)
        → constraint_for constraints family ≡ some c
        → c.allowed ≡ true
    pub cohort : contains (blocked_modes routing) family ≡ false

  lookup-resolve_each :
      (r : StrategyResponse F) (routing : Option AgentRouting)
      (constraints : Option (Dict String (StrategyFamilyConstraint F))) (families : List String)
      (family : String)
      → lookup (resolve_each r routing constraints families) family ≡ (
          if contains families family
          then some (
              resolve_one family r routing
                (constraint_for constraints family)
                (contains (blocked_modes routing) family))
          else none)
  unfolding resolve_each
  lookup-resolve_each r routing constraints [] family = refl
  lookup-resolve_each r routing constraints (f ∷ fs) family = elim (Bool-cases (f == family)) [
    | inl eq ↦ let same : f ≡ family = (string_eq.eq_test_iff f family).0 eq in rw (eq, same)
    | inr ne ↦ rw (ne, lookup-resolve_each r routing constraints fs family)
  ]

  constraint-parts :
      (k : Option (StrategyFamilyConstraint F))
      → ((constraint_allows k ≡ true)
          ↔ ((c : StrategyFamilyConstraint F) → k ≡ some c → c.allowed ≡ true))
        × ((constraint_allows k ≡ true) ↔ (constraint_reasons k ≡ []))
  unfolding constraint_allows constraint_reasons
  constraint-parts none = ((λ h c e. cc, λ h. refl), (λ h. refl, λ h. refl))
  constraint-parts (some c) = (
    (λ h c' e. ap (λ x. x.allowed) (sym (some-injective _ _ e)) ∙ h, λ h. h c refl),
    elim (Bool-cases c.allowed) [
      | inl permitted ↦ rw permitted (λ h. refl, λ h. refl)
      | inr blocked ↦ rw blocked (λ h. cc, λ h. cc)
    ],
  )

  resolve_one-Permits :
      (r : StrategyResponse F) (routing : Option AgentRouting)
      (constraints : Option (Dict String (StrategyFamilyConstraint F))) (family : String)
      → let one =
          resolve_one family r routing
            (constraint_for constraints family)
            (contains (blocked_modes routing) family) in
        ((one.allowed ≡ true) ↔ Permits r routing constraints family)
        × ((one.allowed ≡ true) ↔ (one.blocking_reasons ≡ []))
  unfolding resolve_one
  resolve_one-Permits r routing constraints family =
      let a = response-parts r.reason (lookup (allow_fields r) family) in
      let b = constraint-parts (constraint_for constraints family) in
      let c = routing-parts routing family in
      (
        (
          λ h.
              let (x, y, z) = and_true _ _ _ h in
              record { response = a.0.0 x; constraint = b.0.0 y; cohort = c.0.0 z },
          λ p. true_and _ _ _ (a.0.1 p.response) (b.0.1 p.constraint) (c.0.1 p.cohort),
        ),
        (
          λ h. let (x, y, z) = and_true _ _ _ h in no_reasons _ _ _ (a.1.0 x) (b.1.0 y) (c.1.0 z),
          λ h. let (x, y, z) = reasons_none _ _ _ h in true_and _ _ _ (a.1.1 x) (b.1.1 y) (c.1.1 z),
        ),
      )

  -- The most restrictive source wins. A family or mode of the result is allowed exactly when every
  -- source permits it: the strategy response's field for it, its family constraint and the routed
  -- cohort's blocked modes. It has a blocking reason exactly when it is not allowed.
  pub resolve_effective-Permits :
      (r : StrategyResponse F) (routing : Option AgentRouting)
      (constraints : Option (Dict String (StrategyFamilyConstraint F))) (family : String)
      (one : EffectiveStrategyConstraint F)
      → lookup (resolve_effective_strategy_constraints r routing constraints) family ≡ some one
      → ((one.allowed ≡ true) ↔ Permits r routing constraints family)
        × ((one.allowed ≡ true) ↔ (one.blocking_reasons ≡ []))
  unfolding resolve_effective_strategy_constraints
  resolve_effective-Permits r routing constraints family one found =
      elim (Bool-cases (contains (all_families routing) family)) [
        | inl listed ↦
            let same = some-injective _ _ (
              sym (
                rw listed at
                  (lookup-resolve_each r routing constraints (all_families routing) family))
              ∙ found) in
            subst
              (λ (x : EffectiveStrategyConstraint F).
                ((x.allowed ≡ true) ↔ Permits r routing constraints family)
                × ((x.allowed ≡ true) ↔ (x.blocking_reasons ≡ [])))
              same (resolve_one-Permits r routing constraints family)
        | inr absent ↦ absurd (
            none≢some (
              sym (
                rw absent at
                  (lookup-resolve_each r routing constraints (all_families routing) family))
              ∙ found))
      ]

  -- Every strategy family, every family of the response and every blocked mode has an entry, and a
  -- blocked mode's is not allowed.
  pub resolve_effective_covers :
      (r : StrategyResponse F) (routing : Option AgentRouting)
      (constraints : Option (Dict String (StrategyFamilyConstraint F))) (family : String)
      → (contains strategy_families family
          || (contains response_families family || contains (blocked_modes routing) family))
        ≡ true
      → (one : EffectiveStrategyConstraint F) × (lookup
            (resolve_effective_strategy_constraints r routing constraints)
            family
          ≡ some one)
        × (contains (blocked_modes routing) family ≡ true → one.allowed ≡ false)
  unfolding resolve_effective_strategy_constraints
  resolve_effective_covers r routing constraints family listed =
      let blocked = contains (blocked_modes routing) family in
      let one = resolve_one family r routing (constraint_for constraints family) blocked in
      let present = contains-all_families routing family ∙ listed in
      (
        one,
        lookup-resolve_each r routing constraints (all_families routing) family ∙ rw present refl,
        λ is_blocked. not_true one.allowed λ allowed. false≢true (
            sym ((resolve_one-Permits r routing constraints family).0.0 allowed).cohort
            ∙ is_blocked),
      )
