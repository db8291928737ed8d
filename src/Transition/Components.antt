-- ===== src/Transition/Components.antt =====
-- The components of the pressure score, the first part of src/regime_detection/transition_score.py. An
-- argument that may be `None` is an Option.
use regime_detection.Prelude.Int.{ℤ, pos, int_eq}
use regime_detection.Prelude.{
  String, Bool, true, false, Option, none, some, List, [], ◌∷◌, if◌then◌else◌, ◌==◌, nat_eq,
  string_eq, bool_eq, contains, value_error, Result, ok, err, ◌>>=◌,
}
use regime_detection.Prelude.Dict.{Dict, get_or, has_key}
use regime_detection.Float.{Float, minf, maxf, of_ℕ}

-- `TransitionComponentScales`
pub record TransitionComponentScales {ℓ} (F : Type ℓ) : Type ℓ where
  pub vol_acc_full_stress_ratio : F
  pub breadth_zero_stress_pct : F
  pub breadth_full_stress_range : F
  pub drawdown_full_stress : F
  pub ma_break_full_stress : F
  pub absorption_floor : F
  pub absorption_range : F
  pub volume_zscore_floor : F
  pub volume_zscore_range : F

-- The arguments of `compose_transition_score_for_session`, the configuration apart.
pub record SessionInputs {ℓ} (F : Type ℓ) : Type ℓ where
  pub realized_vol_short : Option F
  pub realized_vol_long : Option F
  pub pct_above_50dma : Option F
  pub avg_pairwise_corr_percentile_504d : Option F
  pub drawdown_252d : Option F
  pub event_calendar_labels : List String
  pub spy_close : Option F
  pub spy_sma_50 : Option F
  pub largest_eigenvalue_share_percentile_504d : Option F
  pub effective_rank_percentile_504d : Option F
  pub absorption_ratio_top3 : Option F
  pub credit_funding_label : Option String
  pub volume_liquidity_label : Option String
  pub volume_zscore_20d : Option F
  pub gap_frequency_percentile_252d : Option F
  pub intraday_range_percentile_252d : Option F
  pub hmm_top_state_prob_now : Option F
  pub hmm_top_state_prob_5d_ago : Option F
  pub change_point_score : Option F
  pub cluster_id_now : Option ℤ
  pub cluster_id_5d_ago : Option ℤ

abbrev pub event_set : List String
event_set =
    "fed_week" ∷ "cpi_week" ∷ "nfp_week" ∷ "budget_week" ∷ "election_window"
    ∷ "global_rate_decision" ∷ []

abbrev pub nonempty : List String → Bool
nonempty [] = false
nonempty (x ∷ xs) = true

abbrev pub filter_labels : (String → Bool) → List String → List String
filter_labels test [] = []
filter_labels test (x ∷ xs) = let rest = filter_labels test xs in if test x then x ∷ rest else rest

unfoldable pub macro_labels_of : List String → List String
macro_labels_of = filter_labels (contains event_set)

module _ {ℓ} {F : Type ℓ} ⦃f : Float F⦄ where
  abbrev pub credit_label_score : Dict String (Option F)
  credit_label_score =
      ("credit_calm", some (f.dec (pos 0) 0))
      ∷ ("credit_recovery", some (f.dec (pos 20) 2))
      ∷ ("credit_divergence", some (f.dec (pos 25) 2))
      ∷ ("spread_widening", some (f.dec (pos 45) 2))
      ∷ ("credit_stress", some (f.dec (pos 75) 2))
      ∷ ("funding_squeeze", some (f.dec (pos 90) 2))
      ∷ ("deleveraging", some (f.dec (pos 1) 0))
      ∷ ("unknown", none)
      ∷ []

  abbrev pub liquidity_label_score : Dict String (Option F)
  liquidity_label_score =
      ("normal_volume", some (f.dec (pos 0) 0))
      ∷ ("liquidity_gap_behavior", some (f.dec (pos 70) 2))
      ∷ ("panic_volume", some (f.dec (pos 1) 0))
      ∷ ("unknown", none)
      ∷ []

  -- `max(lo, min(hi, x))`
  unfoldable pub clip : F → F → F → F
  clip x lo hi = maxf lo (minf hi x)

  unfoldable pub clip_unit : F → F
  unfolding clip
  clip_unit x = clip x (of_ℕ 0) (of_ℕ 1)

  abbrev pub optional_number : Option F → Option F
  optional_number none = none
  optional_number (some x) = if f.is_nan x then none else some x

  abbrev pub larger : Option F → Option F → Option F
  larger none y = y
  larger (some x) none = some x
  larger (some x) (some y) = some (maxf x y)

  -- `max` over the values that are not `None`, from the left.
  abbrev pub max_present : List (Option F) → Option F → Option F
  max_present [] best = best
  max_present (x ∷ xs) best = max_present xs (larger best x)

  abbrev pub label_score : Option String → Dict String (Option F) → Result (Option F)
  label_score none scores = ok none
  label_score (some label) scores =
      if has_key scores label then ok (get_or scores label none) else err value_error

  -- `x not in {None, 0.0}`
  abbrev pub nonzero : Option F → Option F
  nonzero none = none
  nonzero (some x) = if f.eq x (of_ℕ 0) then none else some x

  abbrev pub on_both : (F → F → F) → Option F → Option F → Option F
  on_both g none y = none
  on_both g (some x) none = none
  on_both g (some x) (some y) = some (g x y)

  abbrev pub on_one : (F → F) → Option F → Option F
  on_one g none = none
  on_one g (some x) = some (g x)

  unfoldable pub trend_break_of : TransitionComponentScales F → SessionInputs F → Option F
  unfolding clip_unit
  trend_break_of scales i =
      let drawdown =
        on_one (λ d. clip_unit (f.div (f.neg d) scales.drawdown_full_stress))
          (optional_number i.drawdown_252d) in
      let ma_break =
        on_both
          (λ close sma. clip_unit (f.div (f.div (f.sub sma close) sma) scales.ma_break_full_stress))
          (optional_number i.spy_close) (nonzero (optional_number i.spy_sma_50)) in
      max_present (drawdown ∷ ma_break ∷ []) none

  unfoldable pub volatility_acceleration_of :
      TransitionComponentScales F → SessionInputs F → Option F
  unfolding clip_unit
  volatility_acceleration_of scales i =
      on_both
        (λ short long.
          clip_unit (f.div (f.sub (f.div short long) (of_ℕ 1)) scales.vol_acc_full_stress_ratio))
        (optional_number i.realized_vol_short) (nonzero (optional_number i.realized_vol_long))

  unfoldable pub breadth_deterioration_of : TransitionComponentScales F → SessionInputs F → Option F
  unfolding clip_unit
  breadth_deterioration_of scales i =
      on_one
        (λ pct.
          clip_unit
            (f.div (f.sub scales.breadth_zero_stress_pct pct) scales.breadth_full_stress_range))
        (optional_number i.pct_above_50dma)

  unfoldable pub correlation_fragility_of : TransitionComponentScales F → SessionInputs F → Option F
  unfolding clip_unit
  correlation_fragility_of scales i =
      let rank_stress =
        on_one (f.sub (of_ℕ 1)) (optional_number i.effective_rank_percentile_504d) in
      let absorption_stress =
        on_one (λ a. clip_unit (f.div (f.sub a scales.absorption_floor) scales.absorption_range))
          (optional_number i.absorption_ratio_top3) in
      max_present
        (optional_number i.avg_pairwise_corr_percentile_504d
          ∷ optional_number i.largest_eigenvalue_share_percentile_504d
          ∷ rank_stress
          ∷ absorption_stress
          ∷ [])
        none

  unfoldable pub liquidity_stress_of :
      TransitionComponentScales F → SessionInputs F → Option F → Option F
  unfolding clip_unit
  liquidity_stress_of scales i label_stress =
      let volume_stress =
        on_one
          (λ z. clip_unit (f.div (f.sub z scales.volume_zscore_floor) scales.volume_zscore_range))
          (optional_number i.volume_zscore_20d) in
      max_present
        (label_stress
          ∷ volume_stress
          ∷ optional_number i.gap_frequency_percentile_252d
          ∷ optional_number i.intraday_range_percentile_252d
          ∷ [])
        none

  abbrev pub cluster_flip : Option ℤ → Option ℤ → Option F
  cluster_flip none y = none
  cluster_flip (some x) none = none
  cluster_flip (some x) (some y) = some (if x == y then of_ℕ 0 else of_ℕ 1)

  -- `None` as soon as one of its three parts is.
  abbrev pub worst_of_three : Option F → Option F → Option F → Option F
  worst_of_three (some a) (some b) (some c) = max_present (some a ∷ some b ∷ some c ∷ []) none
  worst_of_three _ _ _ = none

  unfoldable pub model_instability_of : SessionInputs F → Option F
  unfolding clip_unit
  model_instability_of i =
      worst_of_three
        (on_both (λ now ago. clip_unit (f.abs (f.sub now ago)))
          (optional_number i.hmm_top_state_prob_now) (optional_number i.hmm_top_state_prob_5d_ago))
        (on_one clip_unit (optional_number i.change_point_score))
        (cluster_flip i.cluster_id_now i.cluster_id_5d_ago)

  -- `raw_components`
  unfoldable pub components_of :
      TransitionComponentScales F → SessionInputs F → Result (Dict String (Option F))
  unfolding trend_break_of volatility_acceleration_of breadth_deterioration_of
      correlation_fragility_of liquidity_stress_of model_instability_of macro_labels_of
  components_of scales i = do
    credit ← label_score i.credit_funding_label credit_label_score
    liquidity ← label_score i.volume_liquidity_label liquidity_label_score
    ok (
        ("trend_break", trend_break_of scales i)
        ∷ ("volatility_acceleration", volatility_acceleration_of scales i)
        ∷ ("breadth_deterioration", breadth_deterioration_of scales i)
        ∷ ("correlation_fragility", correlation_fragility_of scales i)
        ∷ ("credit_stress", credit)
        ∷ ("liquidity_stress", liquidity_stress_of scales i liquidity)
        ∷ (
          "macro_event",
          some (if nonempty (macro_labels_of i.event_calendar_labels) then of_ℕ 1 else of_ℕ 0),
        )
        ∷ ("model_instability", model_instability_of i)
        ∷ [])
