-- ===== src/Hysteresis/Gap/Tests.antt =====
-- The quality-aware loop on small inputs, and its theorems there.
use regime_detection.Prelude.Int.{pos, int_eq}
use regime_detection.Prelude.{
  String, ◌≡◌, refl, true, false, none, some, [], ◌∷◌, ◌++◌, nat_eq, string_eq, replicate, ok,
}
use regime_detection.Float.{Fixed, fixed_float}
use regime_detection.DataQuality.{DataQuality, DataQualityStatus, ok_status, stale_data}
use regime_detection.Hysteresis.{Settings, step, active_of, apply_per_label_asymmetric_hysteresis}
use regime_detection.Hysteresis.Gap.{
  GapMemory, shown, gap_step, usable_step, run_gaps, hold_limit,
  apply_data_quality_aware_hysteresis,
}
use regime_detection.Hysteresis.Gap.Bound.{forced_rows, gap_holds_then_unknown}
use regime_detection.Hysteresis.Gap.Agrees.{as_shown, apply_data_quality_aware-eq-plain}

abbrev settings : Settings String
settings = record {
  risk_rank = ("calm", pos 0) ∷ ("unknown", pos 1) ∷ ("panic", pos 2) ∷ [];
  deescalation_days_by_label = ("panic", pos 4) ∷ [];
  escalation_days_by_label = [];
  default_escalation_days = pos 1;
  default_deescalation_days = pos 0;
}

abbrev quality : DataQualityStatus → DataQuality Fixed
quality s = record { status = s; freshness_days = none; completeness = none; reason = none }

abbrev usable : DataQuality Fixed
usable = quality ok_status

abbrev stale : DataQuality Fixed
stale = quality stale_data

abbrev in_panic : GapMemory String
in_panic = record {
  data_gap_count = 0;
  stable_label = some "panic";
  pending_label = none;
  pending_count = 0;
  last_known_stable = some "panic";
  last_known_active = some "panic";
}

-- With one freeze day configured, panic is held for three sessions.
gap_runs :
    apply_data_quality_aware_hysteresis settings
      (pos 1)
      "unknown"
      ("panic" ∷ "unknown" ∷ "unknown" ∷ "unknown" ∷ "unknown" ∷ "calm" ∷ [])
      (usable ∷ stale ∷ stale ∷ stale ∷ stale ∷ usable ∷ [])
    ≡ ok (
        shown "panic" "panic" false
        ∷ shown "panic" "panic" true
        ∷ shown "panic" "panic" true
        ∷ shown "panic" "panic" true
        ∷ shown "unknown" "unknown" false
        ∷ shown "calm" "calm" false
        ∷ [])
unfolding apply_data_quality_aware_hysteresis run_gaps gap_step usable_step hold_limit step
    active_of
gap_runs = refl

gap_holds_then_unknown_example :
    run_gaps settings
      (pos 1)
      "unknown"
      in_panic
      (forced_rows ("calm" ∷ "calm" ∷ "calm" ∷ "calm" ∷ []))
    ≡ ok (replicate 3 (shown "panic" "panic" true) ++ replicate 1 (shown "unknown" "unknown" false))
gap_holds_then_unknown_example =
    gap_holds_then_unknown settings 1 "unknown" "panic" "panic" in_panic
      ("calm" ∷ "calm" ∷ "calm" ∷ "calm" ∷ []) (refl, refl) refl

apply_data_quality_aware-eq-plain_example :
    apply_data_quality_aware_hysteresis settings
      (pos 5)
      "unknown"
      ("panic" ∷ "calm" ∷ [])
      (usable ∷ usable ∷ [])
    ≡ as_shown (apply_per_label_asymmetric_hysteresis settings ("panic" ∷ "calm" ∷ []))
apply_data_quality_aware-eq-plain_example =
    apply_data_quality_aware-eq-plain settings 5 "unknown" "panic" (pos 2) ("calm" ∷ [])
      (usable ∷ usable ∷ []) refl refl refl refl (refl, (refl, tt))
