-- ===== src/DataQuality/Prefix.antt =====
-- The window of `_window_to_asof` reads no row after the assessed date.
use regime_detection.Prelude.{
  ℕ, ◌-◌, ◌≤◌, ◌<◌, ◌≡◌, refl, ap, List, [], ◌∷◌, ◌++◌, map, arith, length, take, drop, All,
  take-append_of_le, drop-append_of_le, length-drop,
}
use regime_detection.Float.{Float}
use regime_detection.Calendar.{Exchange}
use regime_detection.DataQuality.{
  Series, search_sorted_right, window_to_asof, QualityRequest, assess_series_input_quality,
  measure_windows,
}

module _ {ℓ} {F : Type ℓ} where
  abbrev pub IsAfter : ℕ → Series F → Type 0
  IsAfter as_of rows = All (λ r. as_of < r.0) rows

  search_sorted_right-le : (s : Series F) (as_of : ℕ) → search_sorted_right s as_of ≤ length s
  unfolding search_sorted_right
  search_sorted_right-le [] as_of = omega arith
  search_sorted_right-le ((d, v) ∷ rows) as_of = ground (arith, search_sorted_right-le rows as_of)

  search_sorted_right_later :
      (later : Series F) (as_of : ℕ) → IsAfter as_of later → search_sorted_right later as_of ≡ 0
  unfolding search_sorted_right
  search_sorted_right_later [] as_of h = refl
  search_sorted_right_later ((d, v) ∷ rows) as_of h = ground arith

  search_sorted_right-append :
      (s later : Series F) (as_of : ℕ)
      → IsAfter as_of later
      → search_sorted_right (s ++ later) as_of ≡ search_sorted_right s as_of
  unfolding search_sorted_right
  search_sorted_right-append [] later as_of h = search_sorted_right_later later as_of h
  search_sorted_right-append ((d, v) ∷ rows) later as_of h =
      rw (search_sorted_right-append rows later as_of h)

  take-drop-append :
      (n k : ℕ) (s later : Series F)
      → k ≤ length s
      → n ≤ length s - k
      → take n (drop k (s ++ later)) ≡ take n (drop k s)
  take-drop-append n k s later h g =
      rw (drop-append_of_le k s later h)
        (take-append_of_le n (drop k s) later (omega (arith, length-drop k s)))

  pub window_to_asof-append :
      (s later : Series F) (as_of required : ℕ)
      → IsAfter as_of later
      → window_to_asof (s ++ later) as_of required ≡ window_to_asof s as_of required
  unfolding window_to_asof
  window_to_asof-append s later as_of required h =
      let bound = search_sorted_right-le s as_of in
      rw (search_sorted_right-append s later as_of h)
        (take-drop-append _ _ s later (omega arith) (omega arith))

  -- Rows that arrive later, one list for each series.
  unfoldable pub extend : List (Series F × Series F) → List (Series F)
  extend [] = []
  extend ((s, later) ∷ rest) = (s ++ later) ∷ extend rest

  unfoldable pub known : List (Series F × Series F) → List (Series F)
  known [] = []
  known ((s, later) ∷ rest) = s ∷ known rest

  windows-extend :
      (inputs : List (Series F × Series F)) (as_of required : ℕ)
      → All (λ p. IsAfter as_of p.1) inputs
      → map (λ s. window_to_asof s as_of required) (extend inputs)
        ≡ map (λ s. window_to_asof s as_of required) (known inputs)
  unfolding extend known
  windows-extend [] as_of required h = refl
  windows-extend ((s, later) ∷ rest) as_of required (h, hs) =
      rw (window_to_asof-append s later as_of required h, windows-extend rest as_of required hs)

module _ {ℓ} {F : Type ℓ} ⦃f : Float F⦄ where
  -- The assessment does not look ahead: rows dated after the assessed date, appended to any of the
  -- input series, do not change its result.
  pub assess_no_lookahead :
      (x : Exchange) (q : QualityRequest F) (inputs : List (Series F × Series F))
      → All (λ p. IsAfter q.as_of_date p.1) inputs
      → assess_series_input_quality x q (extend inputs)
        ≡ assess_series_input_quality x q (known inputs)
  unfolding assess_series_input_quality
  assess_no_lookahead x q inputs h =
      ap (measure_windows x q) (windows-extend inputs q.as_of_date q.required_trading_days h)
