-- ===== src/DataQuality.antt =====
-- src/regime_detection/data_quality.py, and the `DataQuality` model of classification_status.py: the
-- status of an axis's input series at a date. A series is a list of rows, oldest first, each a day
-- ordinal and a value that may be NaN (the indexed path of `_window_to_asof`).
mod Prefix
mod Usable
mod Paths
mod Tests
use regime_detection.Prelude.{
  ℕ, suc, ◌-◌, Bool, true, false, not, ◌&&◌, Option, none, some, List, [], ◌∷◌, map, String, Result,
  ok, err, value_error, validation_error, ltb, leb, length, take, drop, any, max, is_some_of,
  string_eq, if◌then◌else◌,
}
use regime_detection.Prelude.Int.{pos}
use regime_detection.Float.{Float, ltf, lef, minf, of_ℕ}
use regime_detection.Calendar.{Exchange, nyse_sessions_between}

pub data DataQualityStatus : Type 0 where
  ok_status degraded insufficient_data insufficient_history stale_data : DataQualityStatus

pub record DataQuality {ℓ} (F : Type ℓ) : Type ℓ where
  pub status : DataQualityStatus
  pub freshness_days : Option ℕ
  pub completeness : Option F
  pub reason : Option String

abbrev pub forces_unknown : DataQualityStatus → Bool
forces_unknown insufficient_data = true
forces_unknown insufficient_history = true
forces_unknown stale_data = true
forces_unknown _ = false

abbrev pub quality_forces_unknown {ℓ} : {F : Type ℓ} → DataQuality F → Bool
quality_forces_unknown dq = forces_unknown dq.status

abbrev pub Series {ℓ} : Type ℓ → Type ℓ
Series F = List (ℕ × F)

abbrev pub no_valid_observation_freshness_days : ℕ
no_valid_observation_freshness_days = 1_000_000_000

module _ {ℓ} {F : Type ℓ} where
  -- `idx.searchsorted(as_of_date, side="right")` on an ascending index
  unfoldable pub search_sorted_right : Series F → ℕ → ℕ
  search_sorted_right [] as_of = 0
  search_sorted_right ((d, v) ∷ rows) as_of =
      if leb d as_of then suc (search_sorted_right rows as_of) else 0

  -- `series.iloc[start:end]`
  unfoldable pub window_to_asof : Series F → ℕ → ℕ → Series F
  unfolding search_sorted_right
  window_to_asof series as_of required =
      let end = search_sorted_right series as_of in
      let start = end - required in take (end - start) (drop start series)

freshness_from : Exchange → ℕ → Option ℕ → ℕ
freshness_from x as_of none = no_valid_observation_freshness_days
freshness_from x as_of (some day) = length (nyse_sessions_between x day as_of) - 1

pub record QualityRequest {ℓ} (F : Type ℓ) : Type ℓ where
  pub as_of_date : ℕ
  pub required_trading_days : ℕ
  pub raw_label : Option String
  pub max_freshness_days : ℕ
  pub min_completeness : F
  pub skip_raw_label_short_circuit : Bool

module _ {ℓ} {F : Type ℓ} ⦃f : Float F⦄ where
  -- `DataQuality(...)`: the model refuses a completeness outside [0, 1].
  unfoldable pub make_quality :
      DataQualityStatus → Option ℕ → Option F → Option String → Result (DataQuality F)
  make_quality s days none why =
      ok (record { status = s; freshness_days = days; completeness = none; reason = why })
  make_quality s days (some c) why =
      if lef (of_ℕ 0) c && lef c (of_ℕ 1)
      then ok (record { status = s; freshness_days = days; completeness = some c; reason = why })
      else err validation_error

  abbrev pub valid_count : Series F → ℕ
  valid_count [] = 0
  valid_count ((d, v) ∷ rows) = let rest = valid_count rows in if f.is_nan v then rest else suc rest

  -- `float(window.notna().mean())`
  abbrev pub completeness_of : Series F → F
  completeness_of window = f.div (of_ℕ (valid_count window)) (of_ℕ (length window))

  -- `window.last_valid_index()`
  abbrev pub last_valid_index : Series F → Option ℕ
  last_valid_index [] = none
  last_valid_index ((d, v) ∷ rows) = elim (last_valid_index rows) [
    | some day ↦ some day
    | none ↦ if f.is_nan v then none else some d
  ]

  unfoldable pub freshness_days_of : Exchange → ℕ → Series F → ℕ
  unfolding freshness_from
  freshness_days_of x as_of window = freshness_from x as_of (last_valid_index window)

  -- `min(...)` over the windows after the first.
  abbrev pub min_completeness_of : F → List (Series F) → F
  min_completeness_of best [] = best
  min_completeness_of best (w ∷ ws) = min_completeness_of (minf best (completeness_of w)) ws

  -- `max(...)` over the windows after the first.
  unfoldable pub max_freshness_of : Exchange → ℕ → ℕ → List (Series F) → ℕ
  unfolding freshness_days_of
  max_freshness_of x as_of worst [] = worst
  max_freshness_of x as_of worst (w ∷ ws) =
      max_freshness_of x as_of (max worst (freshness_days_of x as_of w)) ws

  -- `INSUFFICIENT_COMPLETENESS_FLOOR`
  abbrev pub insufficient_completeness_floor : F
  insufficient_completeness_floor = f.dec (pos 70) 2

  -- The tests after the measures of the windows are known.
  unfoldable pub grade : QualityRequest F → F → ℕ → Result (DataQuality F)
  unfolding make_quality
  grade q c days =
      if ltb q.max_freshness_days days
      then make_quality stale_data (some days) (some c) (some "stale_data")
      else if ltf c insufficient_completeness_floor
      then make_quality insufficient_data (some days) (some c) (some "insufficient_data")
      else if is_some_of q.raw_label "unknown" && not q.skip_raw_label_short_circuit
      then make_quality insufficient_history none none (some "required_feature_is_nan")
      else if ltf c q.min_completeness
      then make_quality degraded (some days) (some c) (some "incomplete_data")
      else make_quality ok_status (some days) (some c) none

  unfoldable pub measure_windows :
      Exchange → QualityRequest F → List (Series F) → Result (DataQuality F)
  unfolding grade make_quality max_freshness_of freshness_days_of
  measure_windows x q [] = err value_error
  measure_windows x q (w ∷ ws) =
      if any (λ v. ltb (length v) q.required_trading_days) (w ∷ ws)
      then make_quality insufficient_history none none (some "required_feature_is_nan")
      else grade q (min_completeness_of (completeness_of w) ws)
          (max_freshness_of x q.as_of_date (freshness_days_of x q.as_of_date w) ws)

  unfoldable pub assess_series_input_quality :
      Exchange → QualityRequest F → List (Series F) → Result (DataQuality F)
  unfolding measure_windows window_to_asof
  assess_series_input_quality x q inputs =
      measure_windows x q (map (λ s. window_to_asof s q.as_of_date q.required_trading_days) inputs)
