-- ===== src/DataQuality/Usable.antt =====
-- When an assessment lets the classifier's label through.
use regime_detection.Prelude.{
  true, some, ℕ, ◌≡◌, false, not, ◌&&◌, ◌≤◌, ◌↔◌, List, [], ◌∷◌, map, ok, arith, ltb, length, any,
  is_some_of, string_eq,
}
use regime_detection.Float.{Float, ltf}
use regime_detection.Calendar.{Exchange}
use regime_detection.DataQuality.{
  of_ℕ, lef, assess_series_input_quality, Series, window_to_asof, QualityRequest,
  quality_forces_unknown, insufficient_completeness_floor, min_completeness_of, completeness_of,
  max_freshness_of, freshness_days_of, make_quality, grade, measure_windows, DataQuality,
}

module _ {ℓ} {F : Type ℓ} ⦃f : Float F⦄ where
  -- The windows that an assessment measures.
  abbrev pub windows : QualityRequest F → List (Series F) → List (Series F)
  windows q = map (λ s. window_to_asof s q.as_of_date q.required_trading_days)

  abbrev pub completeness : List (Series F) → F
  completeness [] = f.nan
  completeness (w ∷ ws) = min_completeness_of (completeness_of w) ws

  abbrev pub freshness : Exchange → QualityRequest F → List (Series F) → ℕ
  freshness x q [] = 0
  freshness x q (w ∷ ws) = max_freshness_of x q.as_of_date (freshness_days_of x q.as_of_date w) ws

  -- The four conditions under which inputs can be used.
  pub record IsUsable (x : Exchange) (q : QualityRequest F) (ws : List (Series F)) : Type 0 where
    pub long_enough : any (λ v. ltb (length v) q.required_trading_days) ws ≡ false
    pub fresh : freshness x q ws ≤ q.max_freshness_days
    pub complete : ltf (completeness ws) insufficient_completeness_floor ≡ false
    pub label_known :
        (is_some_of q.raw_label "unknown" && not q.skip_raw_label_short_circuit) ≡ false

  measure_windows-IsUsable :
      (x : Exchange) (q : QualityRequest F) (ws : List (Series F)) (dq : DataQuality F)
      → measure_windows x q ws ≡ ok dq
      → (quality_forces_unknown dq ≡ false) ↔ IsUsable x q ws
  unfolding measure_windows grade make_quality
  measure_windows-IsUsable x q [] dq h = cc
  measure_windows-IsUsable x q (w ∷ ws) dq h = ground arith

  -- A completed assessment does not force the label to `unknown` exactly when every window has the
  -- required rows, the stalest window is within the freshness limit, the least complete one reaches
  -- the 0.70 floor, and no raw label `unknown` short-circuits.
  pub assess-IsUsable_iff :
      (x : Exchange) (q : QualityRequest F) (inputs : List (Series F)) (dq : DataQuality F)
      → assess_series_input_quality x q inputs ≡ ok dq
      → (quality_forces_unknown dq ≡ false) ↔ IsUsable x q (windows q inputs)
  unfolding assess_series_input_quality
  assess-IsUsable_iff x q inputs dq h = measure_windows-IsUsable x q (windows q inputs) dq h

  measure_windows_reports :
      (x : Exchange) (q : QualityRequest F) (ws : List (Series F)) (dq : DataQuality F)
      → measure_windows x q ws ≡ ok dq
      → quality_forces_unknown dq ≡ false
      → (dq.freshness_days ≡ some (freshness x q ws))
        × (dq.completeness ≡ some (completeness ws))
        × (lef (of_ℕ 0) (completeness ws) ≡ true)
        × (lef (completeness ws) (of_ℕ 1) ≡ true)
  unfolding measure_windows grade make_quality
  measure_windows_reports x q [] dq h g = cc
  measure_windows_reports x q (w ∷ ws) dq h g = ground arith

  -- What a usable assessment reports is what was measured, and the completeness is in [0, 1].
  pub assess_reports :
      (x : Exchange) (q : QualityRequest F) (inputs : List (Series F)) (dq : DataQuality F)
      → assess_series_input_quality x q inputs ≡ ok dq
      → quality_forces_unknown dq ≡ false
      → let ws = windows q inputs in
        (dq.freshness_days ≡ some (freshness x q ws))
        × (dq.completeness ≡ some (completeness ws))
        × (lef (of_ℕ 0) (completeness ws) ≡ true)
        × (lef (completeness ws) (of_ℕ 1) ≡ true)
  unfolding assess_series_input_quality
  assess_reports x q inputs dq h g = measure_windows_reports x q (windows q inputs) dq h g
