-- ===== src/Transition/Score/Tests.antt =====
-- A session that is scored on fixed-point numbers.
use regime_detection.Prelude.Int.{pos, int_eq}
use regime_detection.Prelude.{
  ℕ, ◌≤◌, String, ◌≡◌, refl, ◌≢◌, false, none, some, [], ◌∷◌, nat_eq, string_eq, bool_eq,
  runtime_error, ok, err,
}
use regime_detection.Prelude.Dict.{Dict}
use regime_detection.Float.{Fixed, fixed_float}
use regime_detection.Float.Meets.{Fixed-IsFloat}
use regime_detection.Transition.Components.{
  TransitionComponentScales, SessionInputs, components_of, clip_unit, clip, macro_labels_of,
  trend_break_of, nonempty, volatility_acceleration_of, breadth_deterioration_of,
  correlation_fragility_of, liquidity_stress_of, model_instability_of,
}
use regime_detection.Transition.Score.{
  TransitionScoreConfig, ComposedTransitionScore, compute_transition_score, score_parts, present_of,
  interpret_transition_score, below_or, compose_transition_score_for_session,
}
use regime_detection.Transition.Score.Unit.{InUnit, compose_transition_score-InUnit}
use regime_detection.Transition.Score.Bands.{band_rank, interpret_transition_score-Monotone}

-- n hundredths
abbrev hundredths : ℕ → Fixed
hundredths n = fixed_float.dec (pos n) 2

abbrev scales : TransitionComponentScales Fixed
scales = record {
  vol_acc_full_stress_ratio = hundredths 100;
  breadth_zero_stress_pct = hundredths 70;
  breadth_full_stress_range = hundredths 50;
  drawdown_full_stress = hundredths 20;
  ma_break_full_stress = hundredths 10;
  absorption_floor = hundredths 60;
  absorption_range = hundredths 30;
  volume_zscore_floor = hundredths 100;
  volume_zscore_range = hundredths 200;
}

abbrev bands : Dict String (Fixed × Fixed)
bands =
    ("stable", (hundredths 0, hundredths 30))
    ∷ ("weakening", (hundredths 30, hundredths 50))
    ∷ ("transition_warning", (hundredths 50, hundredths 70))
    ∷ ("high", (hundredths 70, hundredths 100))
    ∷ []

abbrev config : TransitionScoreConfig Fixed
config = record {
  weights =
      ("trend_break", hundredths 20)
      ∷ ("volatility_acceleration", hundredths 20)
      ∷ ("breadth_deterioration", hundredths 10)
      ∷ ("correlation_fragility", hundredths 10)
      ∷ ("credit_stress", hundredths 10)
      ∷ ("liquidity_stress", hundredths 10)
      ∷ ("macro_event", hundredths 10)
      ∷ ("model_instability", hundredths 10)
      ∷ [];
  minimum_component_weight_coverage = hundredths 75;
  bands = bands;
  scales = scales;
}

abbrev inputs : SessionInputs Fixed
inputs = record {
  realized_vol_short = some (hundredths 30);
  realized_vol_long = some (hundredths 20);
  pct_above_50dma = some (hundredths 45);
  avg_pairwise_corr_percentile_504d = some (hundredths 80);
  drawdown_252d = some (fixed_float.neg (hundredths 10));
  event_calendar_labels = "fed_week" ∷ "earnings" ∷ [];
  spy_close = none;
  spy_sma_50 = none;
  largest_eigenvalue_share_percentile_504d = none;
  effective_rank_percentile_504d = none;
  absorption_ratio_top3 = some (hundredths 75);
  credit_funding_label = some "spread_widening";
  volume_liquidity_label = some "normal_volume";
  volume_zscore_20d = none;
  gap_frequency_percentile_252d = some (hundredths 60);
  intraday_range_percentile_252d = none;
  hmm_top_state_prob_now = some (hundredths 90);
  hmm_top_state_prob_5d_ago = some (hundredths 70);
  change_point_score = some (hundredths 10);
  cluster_id_now = some (pos 2);
  cluster_id_5d_ago = some (pos 2);
}

-- The result of the session, which a run computes.
abbrev scored : ComposedTransitionScore Fixed
scored = record {
  score = some (fixed_float.dec (pos 555) 3);
  interpretation = some "transition_warning";
  components = some (
      ("trend_break", hundredths 50)
      ∷ ("volatility_acceleration", hundredths 50)
      ∷ ("breadth_deterioration", hundredths 50)
      ∷ ("correlation_fragility", hundredths 80)
      ∷ ("credit_stress", hundredths 45)
      ∷ ("liquidity_stress", hundredths 60)
      ∷ ("macro_event", hundredths 100)
      ∷ ("model_instability", hundredths 20)
      ∷ []);
  missing_components = [];
  component_weight_coverage = hundredths 100;
  macro_event_labels = "fed_week" ∷ [];
}

scored_runs : compose_transition_score_for_session inputs config ≡ ok scored
unfolding compose_transition_score_for_session components_of clip_unit clip macro_labels_of
    trend_break_of volatility_acceleration_of breadth_deterioration_of correlation_fragility_of
    liquidity_stress_of model_instability_of compute_transition_score score_parts present_of
    interpret_transition_score below_or
scored_runs = refl

-- NaN clips to the most stressed value.
nan_clips : clip_unit {F = Fixed} fixed_float.nan ≡ hundredths 100
unfolding clip_unit clip
nan_clips = refl

-- A component that is absent is refused, whatever the coverage.
missing_refused :
    compose_transition_score_for_session (record inputs { credit_funding_label = none }) config
    ≡ err runtime_error
unfolding compose_transition_score_for_session components_of clip_unit clip macro_labels_of
    trend_break_of volatility_acceleration_of breadth_deterioration_of correlation_fragility_of
    liquidity_stress_of model_instability_of compute_transition_score score_parts present_of
    interpret_transition_score below_or
missing_refused = refl

compose_transition_score-InUnit_example :
    (nonempty scored.missing_components ≡ false)
    × InUnit {F = Fixed} (fixed_float.dec (pos 555) 3)
    × (scored.interpretation ≢ none)
compose_transition_score-InUnit_example =
    compose_transition_score-InUnit Fixed-IsFloat inputs config scored (fixed_float.dec (pos 555) 3)
      scored_runs refl

mild : interpret_transition_score (hundredths 20) bands ≡ ok "stable"
unfolding interpret_transition_score below_or
mild = refl

severe : interpret_transition_score (hundredths 80) bands ≡ ok "high"
unfolding interpret_transition_score below_or
severe = refl

interpret_transition_score-Monotone_example : band_rank "stable" ≤ band_rank "high"
interpret_transition_score-Monotone_example =
    interpret_transition_score-Monotone Fixed-IsFloat (hundredths 20) (hundredths 80) bands "stable"
      "high" refl mild severe
