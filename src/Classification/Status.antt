-- ===== src/Classification/Status.antt =====
-- Which status a label gets, and when a reason is given.
use regime_detection.Prelude.Int.{int_eq}
use regime_detection.Prelude.{
  is_set, ℕ, String, ◌≡◌, refl, inl, inr, Bool, true, false, not, ◌&&◌, ◌||◌, Option, none, some,
  ltb, Bool-cases, ◌==◌, nat_eq, string_eq, bool_eq, length,
}
use regime_detection.Float.{Float}
use regime_detection.DataQuality.{
  DataQualityStatus, DataQuality, insufficient_data, insufficient_history, stale_data, ok_status,
  degraded, quality_forces_unknown, forces_unknown,
}
use regime_detection.Classification.{
  Fields, ClassificationStatus, classified, no_rule_fired_missing_feature, data_unavailable, stale,
  short_history, missing_rule_features, evidence_reason, or_reason, reason_or, is_label,
  usable_status, quality_status, derive_classification_status,
}

abbrev pub is_classified : ClassificationStatus → Bool
is_classified classified = true
is_classified _ = false

abbrev pub is_missing_feature : ClassificationStatus → Bool
is_missing_feature no_rule_fired_missing_feature = true
is_missing_feature _ = false

-- The statuses that stand for unusable data.
abbrev pub is_data_problem : ClassificationStatus → Bool
is_data_problem data_unavailable = true
is_data_problem stale = true
is_data_problem short_history = true
is_data_problem _ = false

-- What an outcome says: of a label that is known or not, on data that force it to be unknown or not.
pub record Explains (forced known held missing : Bool)
    (outcome : ClassificationStatus × Option String) : Type 0 where
  pub classified_iff : is_classified outcome.0 ≡ not forced && known
  pub data_iff : is_data_problem outcome.0 ≡ forced
  pub missing_iff :
      is_missing_feature outcome.0 ≡ not forced && (not known && (not held && missing))
  pub reason_iff : is_set outcome.1 ≡ not (is_classified outcome.0)

reason-is_set :
    (reason : Option String) (default : String) → is_set (reason_or reason default) ≡ true
reason-is_set none default = refl
reason-is_set (some s) default = refl

module _ (F : Type 0) ⦃f : Float F⦄ where
  usable-Explains :
      (decimal : ℕ → String) (active_label : String) (reason : Option String)
      (evidence : Option (Fields F)) (raw_label stable_label : Option String)
      → Explains false
          (not (active_label == "unknown"))
          (is_label raw_label || is_label stable_label)
          (ltb 0 (length (missing_rule_features decimal evidence)))
          (usable_status decimal active_label reason evidence raw_label stable_label)
  unfolding usable_status
  usable-Explains decimal active_label reason evidence raw_label stable_label =
      elim (Bool-cases (not (active_label == "unknown"))) [
        | inl known ↦ rw known (record {
          classified_iff = refl;
          data_iff = refl;
          missing_iff = refl;
          reason_iff = refl;
        })
        | inr unknown ↦ elim (Bool-cases (is_label raw_label || is_label stable_label)) [
          | inl held ↦
              rw (unknown, held)
                (record {
                  classified_iff = refl;
                  data_iff = refl;
                  missing_iff = refl;
                  reason_iff = refl;
                })
          | inr free ↦ elim (Bool-cases (ltb 0 (length (missing_rule_features decimal evidence)))) [
            | inl missing ↦
                rw (unknown, free, missing)
                  (record {
                    classified_iff = refl;
                    data_iff = refl;
                    missing_iff = refl;
                    reason_iff = refl;
                  })
            | inr complete ↦
                rw (unknown, free, complete)
                  (record {
                    classified_iff = refl;
                    data_iff = refl;
                    missing_iff = refl;
                    reason_iff = reason-is_set reason "no_rule_fired";
                  })
          ]
        ]
      ]

quality-Explains :
    (status : DataQualityStatus) (reason : Option String) (known held missing : Bool)
    (usable : ClassificationStatus × Option String)
    → Explains false known held missing usable
    → Explains (forces_unknown status) known held missing (quality_status status reason usable)
quality-Explains ok_status reason known held missing usable h = h
quality-Explains degraded reason known held missing usable h = h
quality-Explains stale_data reason known held missing usable h = record {
  classified_iff = refl;
  data_iff = refl;
  missing_iff = refl;
  reason_iff = reason-is_set reason "stale_data";
}
quality-Explains insufficient_history reason known held missing usable h = record {
  classified_iff = refl;
  data_iff = refl;
  missing_iff = refl;
  reason_iff = reason-is_set reason "insufficient_history";
}
quality-Explains insufficient_data reason known held missing usable h = record {
  classified_iff = refl;
  data_iff = refl;
  missing_iff = refl;
  reason_iff = reason-is_set reason "insufficient_data";
}

-- The status tells data problems from labels that no rule gave. It is `classified` exactly when the
-- data do not force the label to be unknown and the active label is not; it is one of the three data
-- statuses exactly when they force it; it names missing features exactly when the data are usable, the
-- active label is unknown, neither the raw nor the stable label is a label, and the evidence has a
-- missing feature; and a reason is given exactly when the label is not classified.
pub derive_classification_status-Explains :
    (F : Type 0) ⦃f : Float F⦄ (decimal : ℕ → String) (active_label : String)
    (quality : DataQuality F) (evidence : Option (Fields F))
    (raw_label stable_label : Option String)
    → Explains
        (quality_forces_unknown quality)
        (not (active_label == "unknown"))
        (is_label raw_label || is_label stable_label)
        (ltb 0 (length (missing_rule_features decimal evidence)))
        (derive_classification_status decimal active_label quality evidence raw_label stable_label)
unfolding derive_classification_status
derive_classification_status-Explains F decimal active_label quality evidence raw_label
      stable_label =
    let reason = or_reason quality.reason (evidence_reason evidence) in
    quality-Explains quality.status reason (not (active_label == "unknown"))
      (is_label raw_label || is_label stable_label)
      (ltb 0 (length (missing_rule_features decimal evidence)))
      (usable_status decimal active_label reason evidence raw_label stable_label)
      (usable-Explains F decimal active_label reason evidence raw_label stable_label)
