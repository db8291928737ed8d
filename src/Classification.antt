-- ===== src/Classification.antt =====
-- `derive_classification_status` of src/regime_detection/classification_status.py: why a label was
-- emitted, and the search of the evidence for missing rule features. Evidence is what pydantic's
-- models dump to: mappings, lists, floats, texts, missing values, and other values.
mod Status
mod Tests
use regime_detection.Prelude.Int.{int_eq}
use Prim.Native.String as Text
use regime_detection.Prelude.{
  ℕ, suc, String, Bool, false, not, ◌||◌, Option, none, some, List, [], ◌∷◌, ◌++◌, ltb,
  if◌then◌else◌, ◌==◌, nat_eq, string_eq, bool_eq, contains, length,
}
use regime_detection.Float.{Float}
use regime_detection.DataQuality.{
  DataQualityStatus, DataQuality, insufficient_data, insufficient_history, stale_data,
}
use regime_detection.Strategy.Effective.{sorted_names}

mutual
  pub data Evidence (F : Type 0) : Type 0 where
    absent : Evidence F
    real : F → Evidence F
    text : String → Evidence F
    other : Evidence F
    sequence : Items F → Evidence F
    mapping : Fields F → Evidence F

  pub data Items (F : Type 0) : Type 0 where
    nil : Items F
    cons : Evidence F → Items F → Items F

  pub data Fields (F : Type 0) : Type 0 where
    end : Fields F
    field : String → Evidence F → Fields F → Fields F

-- `ClassificationStatus`, without the status that only the engine's callers set.
pub data ClassificationStatus : Type 0 where
  classified no_rule_fired no_rule_fired_hysteresis : ClassificationStatus
  no_rule_fired_missing_feature data_unavailable stale short_history : ClassificationStatus

abbrev pub non_binding_missing_rule_features : List String
non_binding_missing_rule_features =
    "broad_usd_index_zscore_21d" ∷ "inflation_surprise_zscore"
    ∷ "aggregate_forward_eps_revision_direction_4w" ∷ []

-- `payload.get(key)`
abbrev pub find_field : {F : Type 0} → Fields F → String → Evidence F
find_field end key = absent
find_field (field k v rest) key = let later = find_field rest key in if k == key then v else later

-- `f"{prefix}.{key}" if prefix else key`
abbrev pub child_prefix : String → String → String
child_prefix prefix key = if prefix == "" then key else Text.◌++◌ prefix (Text.◌++◌ "." key)

abbrev pub item_prefix : (ℕ → String) → String → ℕ → String
item_prefix decimal prefix index = Text.◌++◌ prefix (Text.◌++◌ "[" (Text.◌++◌ (decimal index) "]"))

abbrev pub or_unknown : String → String
or_unknown prefix = if prefix == "" then "unknown" else prefix

-- `_collect_missing_leaf_keys`, with the decimal digits of an index.
unfoldable mutual
  pub leaf_keys : {F : Type 0} ⦃f : Float F⦄ → (ℕ → String) → String → Evidence F → List String
  leaf_keys decimal prefix absent = or_unknown prefix ∷ []
  leaf_keys ⦃f⦄ decimal prefix (real x) = if f.is_nan x then or_unknown prefix ∷ [] else []
  leaf_keys decimal prefix (text s) = []
  leaf_keys decimal prefix other = []
  leaf_keys decimal prefix (sequence items) = item_keys decimal prefix 0 items
  leaf_keys decimal prefix (mapping fields) = field_keys decimal prefix fields

  pub item_keys : {F : Type 0} ⦃f : Float F⦄ → (ℕ → String) → String → ℕ → Items F → List String
  item_keys decimal prefix index nil = []
  item_keys decimal prefix index (cons item items) =
      leaf_keys decimal (item_prefix decimal prefix index) item
      ++ item_keys decimal prefix (suc index) items

  pub field_keys : {F : Type 0} ⦃f : Float F⦄ → (ℕ → String) → String → Fields F → List String
  field_keys decimal prefix end = []
  field_keys decimal prefix (field key item fields) =
      let here = leaf_keys decimal (child_prefix prefix key) item in
      let rest = field_keys decimal prefix fields in
      if contains non_binding_missing_rule_features (child_prefix prefix key)
      then rest
      else here ++ rest

-- The missing leaves of a `rule_evidence` that is a mapping.
unfoldable pub rule_keys : {F : Type 0} ⦃f : Float F⦄ → (ℕ → String) → Evidence F → List String
unfolding leaf_keys
rule_keys decimal (mapping fields) = field_keys decimal "" fields
rule_keys decimal _ = []

-- `_collect_missing_rule_features`
unfoldable mutual
  unfolding rule_keys

  pub collect_features : {F : Type 0} ⦃f : Float F⦄ → (ℕ → String) → Evidence F → List String
  collect_features decimal (mapping fields) =
      rule_keys decimal (find_field fields "rule_evidence") ++ collect_fields decimal fields
  collect_features decimal _ = []

  pub collect_fields : {F : Type 0} ⦃f : Float F⦄ → (ℕ → String) → Fields F → List String
  collect_fields decimal end = []
  collect_fields decimal (field key item fields) =
      let here = collect_features decimal item in
      let rest = collect_fields decimal fields in
      if key == "rule_evidence" then rest else here ++ rest

unfoldable pub missing_rule_features :
    {F : Type 0} ⦃f : Float F⦄ → (ℕ → String) → Option (Fields F) → List String
unfolding collect_features sorted_names
missing_rule_features decimal none = []
missing_rule_features decimal (some fields) =
    sorted_names (collect_features decimal (mapping fields))

-- `','.join(features)`
abbrev pub joined : List String → String
joined [] = ""
joined (s ∷ []) = s
joined (s ∷ t ∷ ss) = Text.◌++◌ s (Text.◌++◌ "," (joined (t ∷ ss)))

abbrev pub missing_rule_feature_reason : List String → String
missing_rule_feature_reason features =
    let prefix = if length features == 1 then "missing_rule_feature" else "missing_rule_features" in
    Text.◌++◌ prefix (Text.◌++◌ ":" (joined features))

-- A reason of the evidence that is a text, and `a or b` of two reasons.
abbrev pub text_reason : {F : Type 0} → Evidence F → Option String
text_reason (text s) = if s == "" then none else some s
text_reason _ = none

abbrev pub evidence_reason : {F : Type 0} → Option (Fields F) → Option String
evidence_reason none = none
evidence_reason (some fields) = text_reason (find_field fields "reason")

abbrev pub or_reason : Option String → Option String → Option String
or_reason none later = later
or_reason (some s) later = if s == "" then later else some s

abbrev pub reason_or : Option String → String → Option String
reason_or none default = some default
reason_or (some s) default = some (if s == "" then default else s)

-- `label not in {None, "unknown"}`
abbrev pub is_label : Option String → Bool
is_label none = false
is_label (some label) = not (label == "unknown")

-- A usable axis: what its labels and its evidence say.
unfoldable pub usable_status :
    {F : Type 0} ⦃f : Float F⦄
    → (ℕ → String)
    → String
    → Option String
    → Option (Fields F)
    → Option String
    → Option String
    → ClassificationStatus × Option String
unfolding missing_rule_features
usable_status decimal active_label reason evidence raw_label stable_label =
    let missing = missing_rule_features decimal evidence in
    if not (active_label == "unknown")
    then (classified, none)
    else if is_label raw_label || is_label stable_label
    then (no_rule_fired_hysteresis, some "hysteresis_held_unknown")
    else if ltb 0 (length missing)
    then (no_rule_fired_missing_feature, some (missing_rule_feature_reason missing))
    else (no_rule_fired, reason_or reason "no_rule_fired")

abbrev pub quality_status :
    DataQualityStatus
    → Option String
    → ClassificationStatus × Option String
    → ClassificationStatus × Option String
quality_status stale_data reason usable = (stale, reason_or reason "stale_data")
quality_status insufficient_history reason usable =
    (short_history, reason_or reason "insufficient_history")
quality_status insufficient_data reason usable =
    (data_unavailable, reason_or reason "insufficient_data")
quality_status _ reason usable = usable

unfoldable pub derive_classification_status :
    {F : Type 0} ⦃f : Float F⦄
    → (ℕ → String)
    → String
    → DataQuality F
    → Option (Fields F)
    → Option String
    → Option String
    → ClassificationStatus × Option String
unfolding usable_status
derive_classification_status decimal active_label quality evidence raw_label stable_label =
    let reason = or_reason quality.reason (evidence_reason evidence) in
    quality_status quality.status reason
      (usable_status decimal active_label reason evidence raw_label stable_label)
