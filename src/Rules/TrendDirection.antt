-- ===== src/Rules/TrendDirection.antt =====
-- src/regime_detection/trend_direction_rules.py, with the features of trend_direction.py that it reads
-- and `TrendDirectionV2RulesConfig` of _config_layer1.py. The four features of a session are aligned,
-- as computing them from the closes leaves them; the evidence dictionaries are left out,
-- with their reads of the features, which are taken to be there.
mod Precedence
mod Tests
use regime_detection.Prelude.Int.{pos, int_eq}
use regime_detection.Prelude.{
  ℕ, ◌-◌, String, Bool, true, false, not, ◌&&◌, ◌||◌, Option, none, some, List, [], ◌∷◌, map, ltb,
  if◌then◌else◌, nat_eq, string_eq, bool_eq, get_elem?, Result, ok, ◌>>=◌, ◌>>◌,
}
use regime_detection.Prelude.Dict.{get_from, lookup, get, has_key}
use regime_detection.Float.{Float, ltf, gtf, lef, gef, of_ℕ}
use regime_detection.DataQuality.{Series}
use regime_detection.Rules.{any_nan, mark, position, rank_in}

-- A session of `TrendDirectionFeatures`.
pub record TrendRow {ℓ} (F : Type ℓ) : Type ℓ where
  pub day : ℕ
  pub close : F
  pub sma_50 : F
  pub sma_200 : F
  pub return_63d : F

pub record TrendDirectionV2RulesConfig {ℓ} (F : Type ℓ) : Type ℓ where
  pub recovery_drawdown_threshold : F
  pub recovery_return_threshold : F
  pub euphoria_return_126d_threshold : F
  pub euphoria_sentiment_threshold : F
  pub euphoria_vol_rising_lookback_sessions : ℕ

-- The features that the rules read.
pub record TrendDirectionV2Features {ℓ} (F : Type ℓ) : Type ℓ where
  pub return_63d : Series F
  pub return_126d : Series F
  pub drawdown_252d : Series F
  pub sma_50 : Series F
  pub sma_200 : Series F
  pub realized_vol_21d : Series F
  pub sentiment_score : Option (Series F)

-- `_V2_TREND_PRECEDENCE`
abbrev pub v2_trend_precedence : List String
v2_trend_precedence =
    "euphoria" ∷ "bull" ∷ "recovery" ∷ "bear" ∷ "sideways" ∷ "transition" ∷ "unknown" ∷ []

-- Recovery's answer, given whether its rule fires.
abbrev pub over_lower : String → Bool → Option String
over_lower v1_label false = none
over_lower v1_label true =
    if ltb (rank_in v2_trend_precedence v1_label) (rank_in v2_trend_precedence "recovery")
    then none
    else some "recovery"

module _ {ℓ} {F : Type ℓ} ⦃f : Float F⦄ where
  abbrev pub trend_valid : TrendRow F → Bool
  trend_valid r = not (any_nan (r.close ∷ r.sma_50 ∷ r.sma_200 ∷ r.return_63d ∷ []))

  -- `_WITHIN_PCT_SMA200` and `_SIDEWAYS_ABS_RETURN_63D`
  abbrev pub five_percent : F
  five_percent = f.dec (pos 5) 2

  abbrev pub within_5pct_sma200 : TrendRow F → Bool
  within_5pct_sma200 r =
      trend_valid r
      && (lef (f.mul r.sma_200 (f.sub (of_ℕ 1) five_percent)) r.close
          && lef r.close (f.mul r.sma_200 (f.add (of_ℕ 1) five_percent)))

  abbrev pub bull_fires : TrendRow F → Bool
  bull_fires r =
      trend_valid r && (gtf r.close r.sma_50 && gtf r.close r.sma_200 && gtf r.sma_50 r.sma_200)

  abbrev pub bear_fires : TrendRow F → Bool
  bear_fires r =
      trend_valid r && (ltf r.close r.sma_50 && ltf r.close r.sma_200 && ltf r.sma_50 r.sma_200)

  abbrev pub sideways_fires : TrendRow F → Bool
  sideways_fires r =
      trend_valid r && (ltf (f.abs r.return_63d) five_percent && within_5pct_sma200 r)

  abbrev pub transition_fires : TrendRow F → Bool
  transition_fires r = trend_valid r && not (bull_fires r || bear_fires r || sideways_fires r)

  -- One row of `labels`, written over in source order.
  unfoldable pub trend_raw_label : TrendRow F → String
  trend_raw_label r = mark (bull_fires r) "bull" (
      mark (bear_fires r) "bear"
        (mark (sideways_fires r) "sideways" (mark (transition_fires r) "transition" "unknown")))

  abbrev recovery_values : TrendDirectionV2RulesConfig F → F → F → F → F → Bool
  recovery_values config drawdown return_63d sma_50 close_t =
      not (any_nan (drawdown ∷ return_63d ∷ sma_50 ∷ close_t ∷ []))
      && (lef drawdown config.recovery_drawdown_threshold
          && gtf return_63d config.recovery_return_threshold
          && gtf close_t sma_50)

  -- The reads of `features.x.loc[dt]` raise for a day that is not there.
  unfoldable pub evaluate_recovery :
      TrendDirectionV2Features F → Series F → ℕ → TrendDirectionV2RulesConfig F → Result Bool
  evaluate_recovery features close dt config =
      if has_key features.drawdown_252d dt
      then (do
        drawdown ← get features.drawdown_252d dt
        return_63d ← get features.return_63d dt
        sma_50 ← get features.sma_50 dt
        at_close (lookup close dt) drawdown return_63d sma_50)
      else ok false
    where
      at_close : Option F → F → F → F → Result Bool
      at_close none drawdown return_63d sma_50 = ok false
      at_close (some close_t) drawdown return_63d sma_50 =
          ok (recovery_values config drawdown return_63d sma_50 close_t)

  abbrev euphoria_values :
      TrendDirectionV2RulesConfig F
      → Option F
      → Option F
      → Option F
      → Option F
      → Option F
      → Option F
      → Bool
  euphoria_values config (some close_t) (some sma_200_t) (some return_126d_t) (some vol_t)
        (some vol_back) (some sentiment_t) =
      not (any_nan (close_t ∷ sma_200_t ∷ return_126d_t ∷ vol_t ∷ vol_back ∷ sentiment_t ∷ []))
      && (gtf close_t sma_200_t
          && gtf return_126d_t config.euphoria_return_126d_threshold
          && gtf vol_t vol_back
          && gef sentiment_t config.euphoria_sentiment_threshold)
  euphoria_values config _ _ _ _ _ _ = false

  abbrev volatilities : Series F → List F
  volatilities rows = map (λ row. row.1) rows

  abbrev euphoria_at :
      TrendDirectionV2Features F
      → Series F
      → ℕ
      → TrendDirectionV2RulesConfig F
      → Series F
      → Option ℕ
      → Bool
  euphoria_at features close dt config sentiment none = false
  euphoria_at features close dt config sentiment (some pos_t) =
      let back = config.euphoria_vol_rising_lookback_sessions in
      let vols = volatilities features.realized_vol_21d in
      if ltb pos_t back
      then false
      else euphoria_values config (lookup close dt) (lookup features.sma_200 dt)
          (lookup features.return_126d dt) (get_elem? vols pos_t) (get_elem? vols (pos_t - back))
          (lookup sentiment dt)

  abbrev euphoria_given :
      TrendDirectionV2Features F
      → Series F
      → ℕ
      → TrendDirectionV2RulesConfig F
      → Option (Series F)
      → Bool
  euphoria_given features close dt config none = false
  euphoria_given features close dt config (some sentiment) =
      euphoria_at features close dt config sentiment (position features.realized_vol_21d dt)

  unfoldable pub evaluate_euphoria :
      TrendDirectionV2Features F → Series F → ℕ → TrendDirectionV2RulesConfig F → Bool
  evaluate_euphoria features close dt config =
      euphoria_given features close dt config features.sentiment_score

  unfoldable pub evaluate_v2_trend_label :
      String
      → TrendDirectionV2Features F
      → Series F
      → ℕ
      → TrendDirectionV2RulesConfig F
      → Result (Option String)
  unfolding evaluate_recovery evaluate_euphoria
  evaluate_v2_trend_label v1_label features close dt config =
      if evaluate_euphoria features close dt config then ok (some "euphoria") else (do
        recovery ← evaluate_recovery features close dt config
        ok (over_lower v1_label recovery))

  -- The label of a session with the override, the body of the loop over the rows.
  unfoldable pub resolve_trend_label :
      Option (TrendDirectionV2Features F × TrendDirectionV2RulesConfig F)
      → Series F
      → TrendRow F
      → Result String
  unfolding trend_raw_label evaluate_v2_trend_label
  resolve_trend_label none close r = ok (trend_raw_label r)
  resolve_trend_label (some (features, config)) close r = do
    override ← evaluate_v2_trend_label (trend_raw_label r) features close r.day config
    ok (get_from override (trend_raw_label r))

  unfoldable pub resolve_rows :
      Option (TrendDirectionV2Features F × TrendDirectionV2RulesConfig F)
      → Series F
      → List (TrendRow F)
      → Result (List String)
  unfolding resolve_trend_label
  resolve_rows v2 close [] = ok []
  resolve_rows v2 close (r ∷ rows) = do
    label ← resolve_trend_label v2 close r
    labels ← resolve_rows v2 close rows
    ok (label ∷ labels)

  abbrev pub closes : List (TrendRow F) → Series F
  closes rows = map (λ r. (r.day, r.close)) rows

  -- `build_raw_outputs`
  unfoldable pub build_trend_labels :
      Option (TrendDirectionV2Features F × TrendDirectionV2RulesConfig F)
      → List (TrendRow F)
      → Result (List String)
  unfolding resolve_rows
  build_trend_labels v2 rows = resolve_rows v2 (closes rows) rows
