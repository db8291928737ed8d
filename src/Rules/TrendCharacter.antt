-- ===== src/Rules/TrendCharacter.antt =====
-- src/regime_detection/trend_character_rules.py, with the features of trend_character.py that it
-- reads. The evidence dictionaries are left out.
mod Classified
mod Tests
use regime_detection.Prelude.Int.{pos, negsuc}
use regime_detection.Prelude.{
  String, Bool, true, false, not, ◌&&◌, ◌||◌, Option, none, some, List, [], ◌∷◌, map,
}
use regime_detection.Float.{Float, ltf, gtf, lef, gef, of_ℕ}
use regime_detection.Rules.{any_nan, mark}

-- A session of `TrendCharacterFeatures`; a flag may be missing.
pub record CharacterRow {ℓ} (F : Type ℓ) : Type ℓ where
  pub close : F
  pub sma_50 : F
  pub return_10d : F
  pub return_21d : F
  pub prior_63d_drawdown : F
  pub adx_14 : F
  pub return_63d : F
  pub midpoint_excursion_20d : F
  pub breakout_20d_or_50d : Option Bool
  pub bb_width_expanding : Option Bool
  pub volume_above_20d_average : Option Bool
  pub followthrough_rate : F

-- The keyword arguments of `build_raw_outputs`.
pub record CharacterThresholds {ℓ} (F : Type ℓ) : Type ℓ where
  pub allow_v2_labels : Bool
  pub followthrough_rate_threshold : F
  pub range_bound_return_63d_threshold : F
  pub range_bound_midpoint_excursion_threshold : F
  pub range_bound_adx_threshold : F

-- `flag.fillna(False).astype(bool)`
abbrev pub filled : Option Bool → Bool
filled none = false
filled (some flag) = flag

-- `vol_above | ~vol_available`
abbrev pub vol_gate : Option Bool → Bool
vol_gate none = true
vol_gate (some above) = above

module _ {ℓ} {F : Type ℓ} ⦃f : Float F⦄ where
  -- The defaults of the keyword arguments.
  abbrev pub default_thresholds : CharacterThresholds F
  default_thresholds = record {
    allow_v2_labels = true;
    followthrough_rate_threshold = f.dec (pos 60) 2;
    range_bound_return_63d_threshold = f.dec (pos 5) 2;
    range_bound_midpoint_excursion_threshold = f.dec (pos 5) 2;
    range_bound_adx_threshold = of_ℕ 20;
  }

  abbrev pub character_valid : CharacterRow F → Bool
  character_valid r = not (
      any_nan
        (r.close ∷ r.sma_50 ∷ r.return_10d ∷ r.return_21d ∷ r.prior_63d_drawdown ∷ r.adx_14 ∷ []))

  abbrev pub rebounds : CharacterRow F → Bool
  rebounds r =
      lef r.prior_63d_drawdown (f.dec (negsuc 9) 2)
      && gtf r.close r.sma_50
      && gef r.return_10d (f.dec (pos 5) 2)

  abbrev pub recovery_attempt_fires : CharacterRow F → Bool
  recovery_attempt_fires r = character_valid r && rebounds r

  abbrev pub trending_fires : CharacterRow F → Bool
  trending_fires r =
      character_valid r && (gef r.adx_14 (of_ℕ 20) && gef (f.abs r.return_21d) (f.dec (pos 5) 2))

  abbrev pub mild_trend_fires : CharacterThresholds F → CharacterRow F → Bool
  mild_trend_fires t r =
      t.allow_v2_labels
      && (character_valid r
          && (gef r.adx_14 (of_ℕ 20) && ltf (f.abs r.return_21d) (f.dec (pos 5) 2)))

  abbrev pub chop_fires : CharacterRow F → Bool
  chop_fires r =
      character_valid r
      && (ltf r.adx_14 (of_ℕ 20)
          && ltf (f.abs r.return_10d) (f.dec (pos 3) 2)
          && ltf (f.abs r.return_21d) (f.dec (pos 5) 2))

  abbrev pub volatile_chop_fires : CharacterThresholds F → CharacterRow F → Bool
  volatile_chop_fires t r =
      t.allow_v2_labels
      && (character_valid r
          && (ltf r.adx_14 (of_ℕ 20) && not (chop_fires r) && not (recovery_attempt_fires r)))

  abbrev pub breaks_out : CharacterThresholds F → CharacterRow F → Bool
  breaks_out t r =
      filled r.breakout_20d_or_50d
      && filled r.bb_width_expanding
      && vol_gate r.volume_above_20d_average
      && not (f.is_nan r.followthrough_rate)
      && gef r.followthrough_rate t.followthrough_rate_threshold

  abbrev pub breakout_expansion_fires : CharacterThresholds F → CharacterRow F → Bool
  breakout_expansion_fires t r = t.allow_v2_labels && (character_valid r && breaks_out t r)

  abbrev pub stays_in_range : CharacterThresholds F → CharacterRow F → Bool
  stays_in_range t r =
      not (f.is_nan r.return_63d)
      && not (f.is_nan r.midpoint_excursion_20d)
      && ltf (f.abs r.return_63d) t.range_bound_return_63d_threshold
      && lef r.midpoint_excursion_20d t.range_bound_midpoint_excursion_threshold
      && ltf r.adx_14 t.range_bound_adx_threshold

  abbrev pub range_bound_fires : CharacterThresholds F → CharacterRow F → Bool
  range_bound_fires t r = t.allow_v2_labels && (character_valid r && stays_in_range t r)

  abbrev pub other_fires : CharacterThresholds F → CharacterRow F → Bool
  other_fires t r =
      breakout_expansion_fires t r
      || recovery_attempt_fires r
      || trending_fires r
      || mild_trend_fires t r
      || range_bound_fires t r
      || chop_fires r
      || volatile_chop_fires t r

  abbrev pub no_other_fires : CharacterThresholds F → CharacterRow F → Bool
  no_other_fires t r = character_valid r && not (other_fires t r)

  -- One row of `labels`, written over in source order.
  unfoldable pub character_label : CharacterThresholds F → CharacterRow F → String
  character_label t r = mark (breakout_expansion_fires t r) "breakout_expansion" (
      mark (recovery_attempt_fires r) "recovery_attempt" (
        mark (trending_fires r) "trending" (
          mark (mild_trend_fires t r) "mild_trend" (
            mark (range_bound_fires t r) "range_bound" (
              mark (chop_fires r) "chop" (
                mark (volatile_chop_fires t r) "volatile_chop"
                  (mark (no_other_fires t r) "transition" "unknown")))))))

  -- The labels of `build_raw_outputs`
  unfoldable pub build_character_labels :
      CharacterThresholds F → List (CharacterRow F) → List String
  unfolding character_label
  build_character_labels t rows = map (character_label t) rows
