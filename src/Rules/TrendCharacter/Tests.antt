-- ===== src/Rules/TrendCharacter/Tests.antt =====
-- Trend character labels on fixed-point numbers.
use regime_detection.Prelude.Int.{pos, int_eq}
use regime_detection.Prelude.{
  ℕ, ◌≡◌, refl, true, false, none, some, [], ◌∷◌, nat_eq, string_eq, bool_eq, contains,
}
use regime_detection.Float.{Fixed, fixed_float}
use regime_detection.Float.Meets.{Fixed-IsFloat}
use regime_detection.Rules.TrendCharacter.{
  CharacterRow, CharacterThresholds, default_thresholds, character_label, build_character_labels,
}
use regime_detection.Rules.TrendCharacter.Classified.{definite_labels, character_label-IsDefinite}

abbrev hundredths : ℕ → Fixed
hundredths n = fixed_float.dec (pos n) 2

abbrev thresholds : CharacterThresholds Fixed
thresholds = default_thresholds

-- A weak, wide session: neither a trend nor a narrow chop.
abbrev restless : CharacterRow Fixed
restless = record {
  close = hundredths 9_900;
  sma_50 = hundredths 10_000;
  return_10d = hundredths 4;
  return_21d = hundredths 2;
  prior_63d_drawdown = hundredths 0;
  adx_14 = hundredths 1_500;
  return_63d = hundredths 8;
  midpoint_excursion_20d = hundredths 6;
  breakout_20d_or_50d = some false;
  bb_width_expanding = none;
  volume_above_20d_average = none;
  followthrough_rate = fixed_float.nan;
}

labels_run :
    build_character_labels thresholds (
      restless
      ∷ record restless { return_63d = hundredths 3; midpoint_excursion_20d = hundredths 2 }
      ∷ record restless { adx_14 = hundredths 2_500 }
      ∷ record restless { adx_14 = fixed_float.nan }
      ∷ [])
    ≡ "volatile_chop" ∷ "range_bound" ∷ "mild_trend" ∷ "unknown" ∷ []
unfolding build_character_labels character_label
labels_run = refl

-- Without the v2 labels the same session is a transition.
v1_run :
    build_character_labels (record thresholds { allow_v2_labels = false }) (restless ∷ [])
    ≡ "transition" ∷ []
unfolding build_character_labels character_label
v1_run = refl

fixed_abs_number :
    (x : Fixed) → fixed_float.is_nan x ≡ false → fixed_float.is_nan (fixed_float.abs x) ≡ false
fixed_abs_number none h = h
fixed_abs_number (some a) h = refl

character_label-IsDefinite_example :
    contains definite_labels (character_label thresholds restless) ≡ true
character_label-IsDefinite_example =
    character_label-IsDefinite Fixed-IsFloat fixed_abs_number thresholds restless refl refl
