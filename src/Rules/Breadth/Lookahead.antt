-- ===== src/Rules/Breadth/Lookahead.antt =====
-- The label of a day does not depend on the days that follow it.
use regime_detection.Prelude.Int.{int_eq}
use regime_detection.Prelude.{
  ℕ, zero, suc, ◌-◌, ◌≤◌, ◌<◌, String, ◌≡◌, refl, inl, inr, false, Option, none, some, [], ◌∷◌,
  ◌++◌, arith, Bool-cases, Option-cases, ◌==◌, nat_eq, string_eq, bool_eq, length, drop,
  length-drop, take-append_of_le, drop-append_of_le,
}
use regime_detection.Prelude.Dict.{lookup, has_key}
use regime_detection.Float.{Float}
use regime_detection.DataQuality.{Series}
use regime_detection.Rules.{position}
use regime_detection.Rules.Breadth.{
  BreadthV2, value_at, endpoints_from, lookback_endpoint_values, evaluate_narrowing_breadth,
  evaluate_recovery_breadth, evaluate_broadening_breadth, evaluate_breadth_thrust, thrust_fires,
  thrust_from, resolve_day,
}

-- Rows that follow those of the inputs.
pub record LaterRows (F : Type 0) : Type 0 where
  pub pct_above_50dma : Series F
  pub pct_above_200dma : Series F
  pub nh_nl_ratio : Series F
  pub ad_line_slope_20d : Series F
  pub breadth_thrust : Series F

module _ {F : Type 0} where
  position-append :
      (xs ys : Series F) (dt : ℕ) → has_key ys dt ≡ false → position (xs ++ ys) dt ≡ position xs dt
  position-append [] [] dt h = refl
  position-append [] ((day, value) ∷ ys) dt h = elim (Bool-cases (day == dt)) [
    | inl here ↦ let absurd = rw here at h in cc
    | inr later ↦ rw (later, position-append [] ys dt (rw later at h)) refl
  ]
  position-append ((day, value) ∷ xs) ys dt h = rw (position-append xs ys dt h) refl

  lookup-append :
      (xs ys : Series F) (dt : ℕ) → has_key ys dt ≡ false → lookup (xs ++ ys) dt ≡ lookup xs dt
  lookup-append [] [] dt h = refl
  lookup-append [] ((day, value) ∷ ys) dt h = elim (Bool-cases (day == dt)) [
    | inl here ↦ let absurd = rw here at h in cc
    | inr later ↦ rw (later, lookup-append [] ys dt (rw later at h)) refl
  ]
  lookup-append ((day, value) ∷ xs) ys dt h = rw (lookup-append xs ys dt h) refl

  value_at-append :
      (xs ys : Series F) (n : ℕ) → n < length xs → value_at (xs ++ ys) n ≡ value_at xs n
  value_at-append [] ys n h = elim h [ ]
  value_at-append (x ∷ xs) ys zero h = refl
  value_at-append (x ∷ xs) ys (suc n) h = value_at-append xs ys n (omega arith)

  position_bound : (xs : Series F) (dt n : ℕ) → position xs dt ≡ some n → n < length xs
  position_bound [] dt n h = cc
  position_bound ((day, value) ∷ xs) dt n h = elim (Bool-cases (day == dt)) [
    | inl here ↦ let same = rw here at h in ground arith
    | inr later ↦
        let shifted = rw later at h in
        elim (Option-cases (position xs dt)) [
          | inl missing ↦ let absurd = rw missing at shifted in cc
          | inr (m, found) ↦
              let same = rw found at shifted in
              let bound = position_bound xs dt m found in ground arith
        ]
  ]

  abbrev append_option : Option (Series F) → Series F → Option (Series F)
  append_option none later = none
  append_option (some series) later = some (series ++ later)

  -- No later row is one of the day.
  pub record AllAfter (later : LaterRows F) (dt : ℕ) : Type 0 where
    pub pct_above_50dma : has_key later.pct_above_50dma dt ≡ false
    pub pct_above_200dma : has_key later.pct_above_200dma dt ≡ false
    pub nh_nl_ratio : has_key later.nh_nl_ratio dt ≡ false
    pub ad_line_slope_20d : has_key later.ad_line_slope_20d dt ≡ false
    pub breadth_thrust : has_key later.breadth_thrust dt ≡ false

module _ {F : Type 0} ⦃f : Float F⦄ where
  endpoints-append :
      (xs ys : Series F) (lookback : ℕ) (o : Option ℕ)
      → ((n : ℕ) → o ≡ some n → n < length xs)
      → endpoints_from (xs ++ ys) lookback o ≡ endpoints_from xs lookback o
  endpoints-append xs ys lookback none bound = refl
  endpoints-append xs ys lookback (some n) bound =
      let inside = bound n refl in
      rw (value_at-append xs ys n inside, value_at-append xs ys (n - lookback) (omega arith)) refl

  lookback_endpoint_values-append :
      (xs ys : Series F) (dt lookback : ℕ)
      → has_key ys dt ≡ false
      → lookback_endpoint_values (xs ++ ys) dt lookback ≡ lookback_endpoint_values xs dt lookback
  unfolding lookback_endpoint_values
  lookback_endpoint_values-append xs ys dt lookback h =
      rw (position-append xs ys dt h)
        (endpoints-append xs ys lookback (position xs dt) (position_bound xs dt))

  thrust_from-append :
      (xs ys : Series F) (o : Option ℕ)
      → ((n : ℕ) → o ≡ some n → n < length xs)
      → thrust_from (xs ++ ys) o ≡ thrust_from xs o
  thrust_from-append xs ys none bound = refl
  thrust_from-append xs ys (some n) bound =
      let inside = bound n refl in
      let room : n - (n - 10) ≤ length (drop (n - 10) xs) =
        omega (arith, length-drop (n - 10) xs) in
      rw
        (
          value_at-append xs ys n inside,
          drop-append_of_le (n - 10) xs ys (omega arith),
          take-append_of_le (n - (n - 10)) (drop (n - 10) xs) ys room,
        )
        refl

  evaluate_breadth_thrust-append :
      (xs ys : Series F) (dt : ℕ)
      → has_key ys dt ≡ false
      → evaluate_breadth_thrust (xs ++ ys) dt ≡ evaluate_breadth_thrust xs dt
  unfolding evaluate_breadth_thrust
  evaluate_breadth_thrust-append xs ys dt h =
      rw (position-append xs ys dt h)
        (thrust_from-append xs ys (position xs dt) (position_bound xs dt))

  abbrev pub extended : BreadthV2 F → LaterRows F → BreadthV2 F
  extended b later = record b {
    pct_above_50dma = b.pct_above_50dma ++ later.pct_above_50dma;
    pct_above_200dma = b.pct_above_200dma ++ later.pct_above_200dma;
    nh_nl_ratio = b.nh_nl_ratio ++ later.nh_nl_ratio;
    ad_line_slope_20d = b.ad_line_slope_20d ++ later.ad_line_slope_20d;
    breadth_thrust = append_option b.breadth_thrust later.breadth_thrust;
  }

  thrust_fires-extended :
      (b : BreadthV2 F) (later : LaterRows F) (dt : ℕ)
      → AllAfter later dt
      → thrust_fires (extended b later) dt ≡ thrust_fires b dt
  thrust_fires-extended b later dt after = elim (Option-cases b.breadth_thrust) [
    | inl missing ↦ rw missing refl
    | inr (series, given) ↦
        rw given
          (evaluate_breadth_thrust-append series later.breadth_thrust dt after.breadth_thrust)
  ]

  -- The resolved label of a day does not look ahead: rows of other days, appended to any of the input
  -- series, do not change it.
  pub resolve_day_no_lookahead :
      (b : BreadthV2 F) (later : LaterRows F) (dt : ℕ) (v1 : String)
      → AllAfter later dt
      → resolve_day (extended b later) dt v1 ≡ resolve_day b dt v1
  unfolding resolve_day evaluate_narrowing_breadth evaluate_recovery_breadth
      evaluate_broadening_breadth
  resolve_day_no_lookahead b later dt v1 after =
      rw
        (
          thrust_fires-extended b later dt after,
          lookback_endpoint_values-append b.pct_above_50dma later.pct_above_50dma dt
              b.lookback_sessions after.pct_above_50dma,
          lookback_endpoint_values-append b.pct_above_200dma later.pct_above_200dma dt
              b.lookback_sessions after.pct_above_200dma,
          lookback_endpoint_values-append b.nh_nl_ratio later.nh_nl_ratio dt b.lookback_sessions
              after.nh_nl_ratio,
          lookup-append b.nh_nl_ratio later.nh_nl_ratio dt after.nh_nl_ratio,
          lookup-append b.ad_line_slope_20d later.ad_line_slope_20d dt after.ad_line_slope_20d,
        )
        refl
