-- ===== src/Rules/Breadth.antt =====
-- src/regime_detection/breadth_state_rules.py: the labels, without the evidence that is reported
-- beside them. The days of a series are distinct, so that a position is a number.
mod Disjoint
mod Precedence
mod Lookahead
mod Tests
use regime_detection.Prelude.Int.{pos, negsuc, int_eq}
use regime_detection.Prelude.{
  ℕ, zero, suc, ◌-◌, String, Bool, false, not, ◌&&◌, ◌||◌, Option, none, some, List, [], ◌∷◌, ltb,
  if◌then◌else◌, ◌==◌, nat_eq, string_eq, bool_eq, contains, take, drop, any,
}
use regime_detection.Prelude.Dict.{lookup}
use regime_detection.Float.{Float, ltf, lef, gtf, gef, of_ℕ}
use regime_detection.DataQuality.{Series}
use regime_detection.Rules.{any_nan, mark, position}

-- A session's row of `BreadthFeatures`.
pub record BreadthRow {ℓ} (F : Type ℓ) : Type ℓ where
  pub relative_breadth_ratio : F
  pub relative_breadth_sma50 : F
  pub relative_breadth_return_20d : F
  pub index_distance_from_63d_high : F

-- The arguments of `resolve_v2_raw_outputs` that are the same for each day.
pub record BreadthV2 {ℓ} (F : Type ℓ) : Type ℓ where
  pub pct_above_50dma : Series F
  pub pct_above_200dma : Series F
  pub nh_nl_ratio : Series F
  pub ad_line_slope_20d : Series F
  pub breadth_thrust : Option (Series F)
  pub lookback_sessions : ℕ
  pub nh_nl_threshold : F

-- The labels that recovery and broadening may replace.
abbrev pub overridable : String → Bool
overridable label =
    contains ("weak_breadth" ∷ "healthy_breadth" ∷ "neutral_breadth" ∷ "unknown" ∷ []) label

module _ {ℓ} {F : Type ℓ} where
  -- `series.iloc[pos]`
  abbrev pub value_at : Series F → ℕ → Option F
  value_at [] n = none
  value_at ((day, value) ∷ rows) zero = some value
  value_at ((day, value) ∷ rows) (suc n) = value_at rows n

module _ {ℓ} {F : Type ℓ} ⦃f : Float F⦄ where
  abbrev pub number : Option F → Option F
  number none = none
  number (some value) = if f.is_nan value then none else some value

  abbrev both : Option F → Option F → Option (F × F)
  both none y = none
  both (some x) none = none
  both (some x) (some y) = some (x, y)

  abbrev pub endpoints_from : Series F → ℕ → Option ℕ → Option (F × F)
  endpoints_from series lookback none = none
  endpoints_from series lookback (some pos_now) =
      if ltb pos_now lookback
      then none
      else both (number (value_at series (pos_now - lookback))) (number (value_at series pos_now))

  -- The value at t - lookback and the one at t.
  unfoldable pub lookback_endpoint_values : Series F → ℕ → ℕ → Option (F × F)
  lookback_endpoint_values series dt lookback = endpoints_from series lookback (position series dt)

  abbrev pub rising : Option (F × F) → Bool
  rising none = false
  rising (some (past, now)) = gtf now past

  abbrev pub falling : Option (F × F) → Bool
  falling none = false
  falling (some (past, now)) = ltf now past

  -- A test of the value at a day, false where it is absent or NaN.
  abbrev pub test_number : (F → Bool) → Option F → Bool
  test_number test none = false
  test_number test (some value) = not (f.is_nan value) && test value

  unfoldable pub evaluate_narrowing_breadth : BreadthV2 F → ℕ → Bool
  unfolding lookback_endpoint_values
  evaluate_narrowing_breadth b dt =
      falling (lookback_endpoint_values b.pct_above_50dma dt b.lookback_sessions)
      && falling (lookback_endpoint_values b.pct_above_200dma dt b.lookback_sessions)
      && test_number (λ now. ltf now b.nh_nl_threshold) (lookup b.nh_nl_ratio dt)

  unfoldable pub evaluate_broadening_breadth : BreadthV2 F → ℕ → Bool
  unfolding lookback_endpoint_values
  evaluate_broadening_breadth b dt =
      rising (lookback_endpoint_values b.nh_nl_ratio dt b.lookback_sessions)
      && test_number (λ slope. gtf slope (of_ℕ 0)) (lookup b.ad_line_slope_20d dt)

  unfoldable pub evaluate_recovery_breadth : BreadthV2 F → ℕ → Bool
  unfolding lookback_endpoint_values
  evaluate_recovery_breadth b dt =
      rising (lookback_endpoint_values b.nh_nl_ratio dt b.lookback_sessions)
      && test_number (λ slope. lef slope (of_ℕ 0)) (lookup b.ad_line_slope_20d dt)

  -- Whether a row of the window is a number below 0.40.
  abbrev is_low : ℕ × F → Bool
  is_low row = not (f.is_nan row.1) && ltf row.1 (f.dec (pos 40) 2)

  abbrev pub thrust_from : Series F → Option ℕ → Bool
  thrust_from feature none = false
  thrust_from feature (some pos_t) =
      let start_pos = pos_t - 10 in
      test_number (λ now. gtf now (f.dec (pos 615) 3)) (value_at feature pos_t)
      && ltb start_pos pos_t
      && any is_low (take (pos_t - start_pos) (drop start_pos feature))

  unfoldable pub evaluate_breadth_thrust : Series F → ℕ → Bool
  evaluate_breadth_thrust feature dt = thrust_from feature (position feature dt)

  abbrev pub thrust_fires : BreadthV2 F → ℕ → Bool
  thrust_fires b dt = thrust_given b.breadth_thrust dt
    where
      thrust_given : Option (Series F) → ℕ → Bool
      thrust_given none dt = false
      thrust_given (some feature) dt = evaluate_breadth_thrust feature dt

  -- The body of the loop of `resolve_v2_raw_outputs`.
  unfoldable pub resolve_day : BreadthV2 F → ℕ → String → String
  unfolding evaluate_narrowing_breadth evaluate_broadening_breadth evaluate_recovery_breadth
      evaluate_breadth_thrust
  resolve_day b day v1_raw =
      if thrust_fires b day
      then "breadth_thrust"
      else (if v1_raw == "divergent_fragile"
          then "divergent_fragile"
          else (if evaluate_narrowing_breadth b day
              then "narrowing_breadth"
              else (if overridable v1_raw && evaluate_recovery_breadth b day
                  then "recovery_breadth"
                  else (if overridable v1_raw && evaluate_broadening_breadth b day
                      then "broadening_breadth"
                      else v1_raw))))

  unfoldable pub resolve_v2_raw_labels : BreadthV2 F → List (ℕ × String) → List String
  unfolding resolve_day
  resolve_v2_raw_labels b [] = []
  resolve_v2_raw_labels b ((day, v1_raw) ∷ rows) =
      resolve_day b day v1_raw ∷ resolve_v2_raw_labels b rows

  abbrev pub row_valid : BreadthRow F → Bool
  row_valid r = not (
      any_nan (
        r.relative_breadth_ratio ∷ r.relative_breadth_sma50 ∷ r.relative_breadth_return_20d
        ∷ r.index_distance_from_63d_high ∷ []))

  abbrev divergent_fires : BreadthRow F → Bool
  divergent_fires r =
      row_valid r
      && gef r.index_distance_from_63d_high (f.dec (negsuc 4) 2)
      && ltf r.relative_breadth_ratio r.relative_breadth_sma50
      && lef r.relative_breadth_return_20d (f.dec (negsuc 2) 2)

  abbrev weak_fires : BreadthRow F → Bool
  weak_fires r =
      row_valid r
      && ltf r.relative_breadth_ratio r.relative_breadth_sma50
      && ltf r.relative_breadth_return_20d (of_ℕ 0)

  abbrev healthy_fires : BreadthRow F → Bool
  healthy_fires r =
      row_valid r
      && gtf r.relative_breadth_ratio r.relative_breadth_sma50
      && gef r.relative_breadth_return_20d (of_ℕ 0)

  abbrev neutral_fires : BreadthRow F → Bool
  neutral_fires r = row_valid r && not (divergent_fires r || weak_fires r || healthy_fires r)

  -- One row of `build_raw_outputs`, written over in source order.
  unfoldable pub raw_label : BreadthRow F → String
  raw_label r = mark (divergent_fires r) "divergent_fragile" (
      mark (weak_fires r) "weak_breadth" (
        mark (healthy_fires r) "healthy_breadth"
          (mark (neutral_fires r) "neutral_breadth" "unknown")))
