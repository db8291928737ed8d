-- ===== src/Rules/TrendCharacter/Classified.antt =====
-- With the v2 labels a session with its features is always of a definite character.
use regime_detection.Prelude.Int.{pos, int_eq}
use regime_detection.Prelude.{
  String, ◌≡◌, refl, Bool, true, false, not, ◌&&◌, ◌||◌, List, [], ◌∷◌, arith, string_eq, contains,
}
use regime_detection.Float.{Float, IsFloat, of_ℕ, ltf, gef}
use regime_detection.Rules.{mark}
use regime_detection.Rules.TrendCharacter.{
  CharacterRow, CharacterThresholds, character_valid, character_label, breaks_out, rebounds,
  stays_in_range, breakout_expansion_fires, recovery_attempt_fires, trending_fires,
  mild_trend_fires, range_bound_fires, chop_fires, volatile_chop_fires, no_other_fires,
}

-- The labels that say something of the trend.
abbrev pub definite_labels : List String
definite_labels =
    "breakout_expansion" ∷ "recovery_attempt" ∷ "trending" ∷ "mild_trend" ∷ "range_bound" ∷ "chop"
    ∷ "volatile_chop" ∷ []

marked-definite :
    (a b c d e g h rest : Bool)
    → a || b || c || d || e || g || h ≡ true
    → contains definite_labels (
        mark a "breakout_expansion" (
          mark b "recovery_attempt" (
            mark c "trending" (
              mark d "mild_trend" (
                mark e "range_bound"
                  (mark g "chop" (mark h "volatile_chop" (mark rest "transition" "unknown"))))))))
      ≡ true
marked-definite true b c d e g h rest fires = refl
marked-definite false true c d e g h rest fires = refl
marked-definite false false true d e g h rest fires = refl
marked-definite false false false true e g h rest fires = refl
marked-definite false false false false true g h rest fires = refl
marked-definite false false false false false true h rest fires = refl
marked-definite false false false false false false true rest fires = refl
marked-definite false false false false false false false rest fires = cc

-- Strong or weak, large or small: some rule fires.
some_rule :
    (allow valid strong weak large small near breakout falling range : Bool)
    → allow ≡ true
    → valid ≡ true
    → weak ≡ not strong
    → small ≡ not large
    → (allow && (valid && breakout))
        || (valid && falling)
        || (valid && (strong && large))
        || (allow && (valid && (strong && small)))
        || (allow && (valid && range))
        || (valid && (weak && near && small))
        || (allow
            && (valid
                && (weak && not (valid && (weak && near && small)) && not (valid && falling))))
      ≡ true
some_rule allow valid strong weak large small near breakout falling range a v w x =
    rw (a, v, w, x) (ground arith)

-- What a session with its features has.
has_numbers :
    (close sma ret10 ret21 drawdown adx : Bool)
    → not (close || (sma || (ret10 || (ret21 || (drawdown || (adx || false)))))) ≡ true
    → (ret21 ≡ false) × (adx ≡ false)
has_numbers close sma ret10 ret21 drawdown adx h = (ground arith, ground arith)

module _ {F : Type 0} ⦃f : Float F⦄ (laws : IsFloat F)
    (abs_number : (x : F) → f.is_nan x ≡ false → f.is_nan (f.abs x) ≡ false) where
  open laws use {lt-eq-not-le, dec_number}

  -- With the v2 labels a session whose six required features are there gets one of the seven labels
  -- that say something of the trend, whatever the other thresholds are: it is neither `transition` nor
  -- unknown. Under the laws of float comparisons, where a magnitude of a number is a number.
  pub character_label-IsDefinite :
      (t : CharacterThresholds F) (r : CharacterRow F)
      → t.allow_v2_labels ≡ true
      → character_valid r ≡ true
      → contains definite_labels (character_label t r) ≡ true
  unfolding character_label
  character_label-IsDefinite t r allowed valid =
      let (ret21, adx) =
        has_numbers (f.is_nan r.close) (f.is_nan r.sma_50) (f.is_nan r.return_10d)
          (f.is_nan r.return_21d) (f.is_nan r.prior_63d_drawdown) (f.is_nan r.adx_14) valid in
      let strong = gef r.adx_14 (of_ℕ 20) in
      let weak = ltf r.adx_14 (of_ℕ 20) in
      let large = gef (f.abs r.return_21d) (f.dec (pos 5) 2) in
      let small = ltf (f.abs r.return_21d) (f.dec (pos 5) 2) in
      let near = ltf (f.abs r.return_10d) (f.dec (pos 3) 2) in
      marked-definite (breakout_expansion_fires t r) (recovery_attempt_fires r) (trending_fires r)
        (mild_trend_fires t r) (range_bound_fires t r) (chop_fires r) (volatile_chop_fires t r)
        (no_other_fires t r)
        (some_rule t.allow_v2_labels (character_valid r) strong weak large small near
          (breaks_out t r) (rebounds r) (stays_in_range t r) allowed valid
          (lt-eq-not-le r.adx_14 (of_ℕ 20) adx (dec_number (pos 20) 0))
          (lt-eq-not-le (f.abs r.return_21d) (f.dec (pos 5) 2) (abs_number r.return_21d ret21)
            (dec_number (pos 5) 2)))
