-- ===== src/Rules/Volatility.antt =====
-- src/regime_detection/volatility_state_rules.py: the labels, without the evidence that is reported
-- beside them. A row holds a session's features, NaN where one is absent, the VIX percentile
-- included.
mod Precedence
mod Tests
use regime_detection.Prelude.Int.{pos, negsuc, int_eq}
use regime_detection.Prelude.{
  ℕ, String, Bool, false, not, ◌&&◌, ◌||◌, Option, none, some, List, [], ◌∷◌, ltb, leb,
  if◌then◌else◌, nat_eq, string_eq, bool_eq, Result, ok, ◌>>=◌, ◌>>◌,
}
use regime_detection.Prelude.Dict.{Dict, get_from, lookup, get, has_key}
use regime_detection.Float.{Float, ltf, lef, gtf, gef}
use regime_detection.DataQuality.{Series}
use regime_detection.Rules.{any_nan, mark, rank_in}

pub record VolatilityRow {ℓ} (F : Type ℓ) : Type ℓ where
  pub day : ℕ
  pub return_1d : F
  pub return_5d : F
  pub return_21d : F
  pub realized_vol_percentile_252d : F
  pub vix_percentile_252d : F

pub record VolatilityV2RulesConfig {ℓ} (F : Type ℓ) : Type ℓ where
  pub atr_ratio_threshold : F
  pub realized_vol_ratio_threshold : F
  pub vol_crush_realized_vol_ratio_threshold : F
  pub vol_crush_implied_vol_change_threshold : F

-- The features that the rules read.
pub record VolatilityV2Features {ℓ} (F : Type ℓ) : Type ℓ where
  pub atr_ratio : Series F
  pub realized_vol_short : Series F
  pub realized_vol_long : Series F
  pub realized_vol_21d : Series F
  pub implied_vol_5d_change : Option (Series F)
  pub event_window_just_passed : Option (Dict ℕ Bool)

-- `_V2_VOLATILITY_PRECEDENCE`
abbrev pub v2_volatility_precedence : List String
v2_volatility_precedence =
    "crisis_vol" ∷ "vol_crush" ∷ "high_vol" ∷ "rising_vol" ∷ "low_vol" ∷ "normal_vol" ∷ "unknown"
    ∷ []

module _ {ℓ} {F : Type ℓ} ⦃f : Float F⦄ where
  abbrev pub row_valid : VolatilityRow F → Bool
  row_valid r =
      not (any_nan (r.return_1d ∷ r.return_5d ∷ r.return_21d ∷ r.realized_vol_percentile_252d ∷ []))

  abbrev vix_at_least : VolatilityRow F → F → Bool
  vix_at_least r bound = not (f.is_nan r.vix_percentile_252d) && gef r.vix_percentile_252d bound

  abbrev pub crisis_fires : VolatilityRow F → Bool
  crisis_fires r =
      row_valid r
      && (lef r.return_1d (f.dec (negsuc 4) 2)
          || lef r.return_5d (f.dec (negsuc 7) 2)
          || (gef r.realized_vol_percentile_252d (f.dec (pos 90) 2)
              && lef r.return_21d (f.dec (negsuc 4) 2))
          || vix_at_least r (f.dec (pos 95) 2))

  abbrev pub high_fires : VolatilityRow F → Bool
  high_fires r =
      row_valid r
      && (gef r.realized_vol_percentile_252d (f.dec (pos 80) 2)
          || vix_at_least r (f.dec (pos 80) 2))

  abbrev pub low_fires : VolatilityRow F → Bool
  low_fires r = row_valid r && lef r.realized_vol_percentile_252d (f.dec (pos 30) 2)

  abbrev normal_fires : VolatilityRow F → Bool
  normal_fires r = row_valid r && not (crisis_fires r || high_fires r || low_fires r)

  -- One row of `labels`, written over in source order.
  unfoldable pub raw_label : VolatilityRow F → String
  raw_label r = mark (crisis_fires r) "crisis_vol" (
      mark (high_fires r) "high_vol"
        (mark (low_fires r) "low_vol" (mark (normal_fires r) "normal_vol" "unknown")))

  -- The reads of `features.x.loc[dt]` raise for a day that is not there.
  unfoldable pub evaluate_rising_vol :
      VolatilityV2Features F → ℕ → VolatilityV2RulesConfig F → Result Bool
  evaluate_rising_vol features dt config =
      if has_key features.atr_ratio dt
      then (do
        atr ← get features.atr_ratio dt
        rv_short ← get features.realized_vol_short dt
        rv_long ← get features.realized_vol_long dt
        ok (
            not (any_nan (atr ∷ rv_short ∷ rv_long ∷ []))
            && (gtf atr config.atr_ratio_threshold
                || gtf rv_short (f.mul rv_long config.realized_vol_ratio_threshold))))
      else ok false

  abbrev crush_values :
      VolatilityV2RulesConfig F → Option F → Option F → Option F → Option Bool → Bool
  crush_values config (some rv_short) (some rv_mid) (some iv_change) (some just_passed) =
      not (any_nan (rv_short ∷ rv_mid ∷ iv_change ∷ []))
      && ltf rv_short (f.mul rv_mid config.vol_crush_realized_vol_ratio_threshold)
      && lef iv_change config.vol_crush_implied_vol_change_threshold
      && just_passed
  crush_values config _ _ _ _ = false

  abbrev crush_given :
      VolatilityV2Features F
      → ℕ
      → VolatilityV2RulesConfig F
      → Option (Series F)
      → Option (Dict ℕ Bool)
      → Bool
  crush_given features dt config (some iv_change) (some event_window) =
      crush_values config (lookup features.realized_vol_short dt)
        (lookup features.realized_vol_21d dt) (lookup iv_change dt) (lookup event_window dt)
  crush_given features dt config _ _ = false

  unfoldable pub evaluate_vol_crush : VolatilityV2Features F → ℕ → VolatilityV2RulesConfig F → Bool
  evaluate_vol_crush features dt config =
      crush_given features dt config features.implied_vol_5d_change
        features.event_window_just_passed

  unfoldable pub evaluate_v2_volatility_label :
      String → VolatilityV2Features F → ℕ → VolatilityV2RulesConfig F → Result (Option String)
  unfolding evaluate_rising_vol evaluate_vol_crush
  evaluate_v2_volatility_label v1_label features dt config =
      let v1_rank = rank_in v2_volatility_precedence v1_label in
      if leb (rank_in v2_volatility_precedence "vol_crush") v1_rank
        && evaluate_vol_crush features dt config
      then ok (some "vol_crush")
      else (if ltb v1_rank (rank_in v2_volatility_precedence "rising_vol") then ok none else (do
        rising ← evaluate_rising_vol features dt config
        ok (if rising then some "rising_vol" else none)))

  -- The label of a session with the override, the body of the loop over the rows.
  unfoldable pub resolve_label :
      Option (VolatilityV2Features F × VolatilityV2RulesConfig F) → VolatilityRow F → Result String
  unfolding raw_label evaluate_v2_volatility_label
  resolve_label none r = ok (raw_label r)
  resolve_label (some (features, config)) r = do
    override ← evaluate_v2_volatility_label (raw_label r) features r.day config
    ok (get_from override (raw_label r))

  -- `build_raw_outputs`
  unfoldable pub build_raw_labels :
      Option (VolatilityV2Features F × VolatilityV2RulesConfig F)
      → List (VolatilityRow F)
      → Result (List String)
  unfolding resolve_label
  build_raw_labels v2 [] = ok []
  build_raw_labels v2 (r ∷ rows) = do
    label ← resolve_label v2 r
    labels ← build_raw_labels v2 rows
    ok (label ∷ labels)
