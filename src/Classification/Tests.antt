-- ===== src/Classification/Tests.antt =====
-- An unknown label whose evidence misses two features.
use regime_detection.Prelude.Int.{int_eq}
use regime_detection.Prelude.{
  ℕ, zero, suc, String, ◌≡◌, refl, false, ◌||◌, none, some, [], ◌∷◌, ltb, nat_eq, string_eq,
  bool_eq, length,
}
use regime_detection.Float.{Fixed, fixed_float, of_ℕ}
use regime_detection.DataQuality.{DataQuality, stale_data, ok_status, quality_forces_unknown}
use regime_detection.Classification.{
  Fields, no_rule_fired, no_rule_fired_missing_feature, stale, no_rule_fired_hysteresis,
  missing_rule_features, is_label, derive_classification_status,
}
use regime_detection.Classification.Evidence.{absent, real, text, sequence, mapping}
use regime_detection.Classification.Items.{nil, cons}
use regime_detection.Classification.Fields.{end, field}
use regime_detection.Classification.Status.{Explains, derive_classification_status-Explains}

-- The digits of the few indexes here.
abbrev decimal : ℕ → String
decimal zero = "0"
decimal (suc n) = "1"

abbrev fine : DataQuality Fixed
fine = record { status = ok_status; freshness_days = none; completeness = none; reason = none }

abbrev old : DataQuality Fixed
old = record fine { status = stale_data; reason = some "stale_data" }

-- The spreads at index 1 and the breadth are missing; the inflation surprise is not binding.
abbrev rules : Fields Fixed
rules =
    field "spreads" (sequence (cons (real (of_ℕ {F = Fixed} 3)) (cons (real fixed_float.nan) nil)))
      (field "inflation_surprise_zscore" absent
        (field "inner" (mapping (field "breadth" absent end)) end))

abbrev evidence : Fields Fixed
evidence = field "reason" (text "no match") (field "rule_evidence" (mapping rules) end)

found : missing_rule_features decimal (some evidence) ≡ "inner.breadth" ∷ "spreads[1]" ∷ []
unfolding missing_rule_features
found = refl

unexplained :
    derive_classification_status decimal "unknown" fine (some evidence) none (some "unknown")
    ≡ (no_rule_fired_missing_feature, some "missing_rule_features:inner.breadth,spreads[1]")
unfolding derive_classification_status
unexplained = refl

no_features :
    derive_classification_status {F = Fixed} decimal "unknown" fine
      (some (field "reason" (text "no match") end))
      none
      none
    ≡ (no_rule_fired, some "no match")
unfolding derive_classification_status
no_features = refl

held :
    derive_classification_status {F = Fixed} decimal "unknown" fine none (some "bull") none
    ≡ (no_rule_fired_hysteresis, some "hysteresis_held_unknown")
unfolding derive_classification_status
held = refl

outdated :
    derive_classification_status {F = Fixed} decimal "bull" old none none none
    ≡ (stale, some "stale_data")
unfolding derive_classification_status
outdated = refl

derive_classification_status-Explains_example :
    Explains
      (quality_forces_unknown fine)
      false
      (is_label none || is_label (some "unknown"))
      (ltb 0 (length (missing_rule_features decimal (some evidence))))
      (derive_classification_status decimal "unknown" fine (some evidence) none (some "unknown"))
derive_classification_status-Explains_example =
    derive_classification_status-Explains Fixed decimal "unknown" fine (some evidence) none
      (some "unknown")
