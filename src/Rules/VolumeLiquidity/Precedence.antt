-- ===== src/Rules/VolumeLiquidity/Precedence.antt =====
-- The labels of the volume axis and the rules that fire.
use regime_detection.Prelude.Int.{int_eq}
use regime_detection.Prelude.{
  is_set, min, ◌≡◌, refl, inl, inr, Bool, not, ◌&&◌, ◌||◌, arith, Bool-cases, Option-cases, ◌==◌,
  nat_eq, string_eq, bool_eq,
}
use regime_detection.Float.{Float}
use regime_detection.Rules.{rank_in, rank_if}
use regime_detection.Rules.VolumeLiquidity.{
  VolumeLiquidityRulesConfig, VolumeLiquidityRuleInputs, rule_precedence, gap_history_unavailable,
  liquidity_gap_rule_path, evaluate_panic_volume, evaluate_liquidity_gap_behavior,
  evaluate_normal_volume, evaluate_label, evaluate_rules_with_evidence,
}

module _ {F : Type 0} ⦃f : Float F⦄ where
  -- One of the inputs that normal_volume requires is NaN.
  abbrev pub required_missing : VolumeLiquidityRuleInputs F → Bool
  required_missing i =
      f.is_nan i.volume_zscore_20d || f.is_nan i.return_1d || gap_history_unavailable i

module _ (F : Type 0) ⦃f : Float F⦄ where
  -- The label is the first one in the precedence list among those whose rule fires, and unknown
  -- where none does.
  pub evaluate_rules_with_evidence_first :
      (i : VolumeLiquidityRuleInputs F) (config : VolumeLiquidityRulesConfig F)
      → rank_in rule_precedence (evaluate_rules_with_evidence i config).label
        ≡ min (rank_if rule_precedence (evaluate_panic_volume i config) "panic_volume") (
            min
              (rank_if rule_precedence
                (evaluate_liquidity_gap_behavior i config)
                "liquidity_gap_behavior")
              (rank_if rule_precedence (evaluate_normal_volume i config) "normal_volume"))
  unfolding evaluate_rules_with_evidence evaluate_label evaluate_liquidity_gap_behavior
  evaluate_rules_with_evidence_first i config = elim (Bool-cases (evaluate_panic_volume i config)) [
    | inl panic ↦ rw panic (omega arith)
    | inr calm ↦ rw calm (elim (Option-cases (liquidity_gap_rule_path i config)) [
      | inr (path, gap) ↦ rw gap (elim (Bool-cases (required_missing i)) [
        | inl missing ↦ rw missing refl
        | inr present ↦ rw present refl
      ])
      | inl smooth ↦ rw smooth (elim (Bool-cases (required_missing i)) [
        | inl missing ↦ rw missing refl
        | inr present ↦ rw present refl
      ])
    ])
  ]

  -- The label is unknown exactly where neither stress rule fires and one of the four inputs that
  -- normal_volume requires is NaN; the reason is given there and only there.
  pub evaluate_rules_with_evidence-IsUnknown_iff :
      (i : VolumeLiquidityRuleInputs F) (config : VolumeLiquidityRulesConfig F)
      → (((evaluate_rules_with_evidence i config).label == "unknown") ≡ (
          not (evaluate_panic_volume i config)
          && not (evaluate_liquidity_gap_behavior i config)
          && (f.is_nan i.volume_zscore_20d || f.is_nan i.return_1d || gap_history_unavailable i)))
        × (is_set (evaluate_rules_with_evidence i config).reason
            ≡ ((evaluate_rules_with_evidence i config).label == "unknown"))
  unfolding evaluate_rules_with_evidence evaluate_label evaluate_liquidity_gap_behavior
  evaluate_rules_with_evidence-IsUnknown_iff i config =
      elim (Bool-cases (evaluate_panic_volume i config)) [
        | inl panic ↦ rw panic (refl, refl)
        | inr calm ↦ rw calm (elim (Option-cases (liquidity_gap_rule_path i config)) [
          | inr (path, gap) ↦ rw gap (refl, refl)
          | inl smooth ↦ rw smooth (elim (Bool-cases (required_missing i)) [
            | inl missing ↦ rw missing (refl, refl)
            | inr present ↦ rw present (refl, refl)
          ])
        ])
      ]
