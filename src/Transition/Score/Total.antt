-- ===== src/Transition/Score/Total.antt =====
-- A clipped score always has a band.
use regime_detection.Prelude.Int.{pos, int_eq}
use regime_detection.Prelude.{
  String, ◌≡◌, refl, inl, inr, false, ◌||◌, some, Bool-cases, nat_eq, string_eq, bool_eq, Result,
  ok,
}
use regime_detection.Prelude.Dict.{Dict, lookup}
use regime_detection.Float.{Float, IsFloat, ltf, gtf, of_ℕ}
use regime_detection.Transition.Components.{clip_unit}
use regime_detection.Transition.Score.{interpret_transition_score, below_or}
use regime_detection.Transition.Score.Unit.{clip_unit-InUnit}

-- The band has an entry.
abbrev pub HasBand : {F : Type 0} → Dict String (F × F) → String → Type 0
HasBand {F} bands name = (band : F × F) × (lookup bands name ≡ some band)

module _ {F : Type 0} ⦃f : Float F⦄ where
  below_or_total :
      (s : F) (bands : Dict String (F × F)) (edge name : String) (rest : Result String)
      → HasBand bands edge
      → (a : String) × (rest ≡ ok a)
      → (a : String) × (below_or s bands edge name rest ≡ ok a)
  unfolding below_or
  below_or_total s bands edge name rest (band, found) (a, ended) =
      elim (Bool-cases (ltf s band.0)) [
        | inl below ↦ (name, rw (found, below) refl)
        | inr above ↦ (a, rw (found, above) ended)
      ]

  -- The score of any sum has a band, where the three upper bands are configured, under the laws of
  -- float comparisons: clipping keeps it where the bands are defined, NaN included.
  pub interpret_transition_score_total :
      (laws : IsFloat F) (sum : F) (bands : Dict String (F × F))
      → HasBand bands "weakening"
      → HasBand bands "transition_warning"
      → HasBand bands "high"
      → (a : String) × (interpret_transition_score (clip_unit sum) bands ≡ ok a)
  unfolding interpret_transition_score
  interpret_transition_score_total laws sum bands weakening warning high =
      let unit = clip_unit-InUnit laws sum in
      let low =
        laws.lt-eq-not-le (clip_unit sum) (of_ℕ 0) unit.number (laws.dec_number (pos 0) 0) in
      let top =
        laws.lt-eq-not-le (of_ℕ 1) (clip_unit sum) (laws.dec_number (pos 1) 0) unit.number in
      let inside : ltf (clip_unit sum) (of_ℕ 0) || gtf (clip_unit sum) (of_ℕ 1) ≡ false =
        rw (low, top, unit.at_least, unit.at_most) refl in
      rw inside (
        below_or_total (clip_unit sum) bands "weakening" "stable" _ weakening (
          below_or_total (clip_unit sum) bands "transition_warning" "weakening" _ warning (
            below_or_total (clip_unit sum) bands "high" "transition_warning" (ok "high") high
              ("high", refl))))
