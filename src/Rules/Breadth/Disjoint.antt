-- ===== src/Rules/Breadth/Disjoint.antt =====
-- The slope conjuncts of recovery and broadening exclude each other.
use regime_detection.Prelude.Int.{pos, int_eq}
use regime_detection.Prelude.{
  ℕ, ◌≡◌, refl, inl, inr, false, ◌&&◌, Option, none, some, arith, Bool-cases, nat_eq, string_eq,
  bool_eq,
}
use regime_detection.Prelude.Dict.{lookup}
use regime_detection.Float.{Float, IsFloat, gtf, lef, of_ℕ}
use regime_detection.Rules.Breadth.{
  BreadthV2, test_number, evaluate_recovery_breadth, evaluate_broadening_breadth,
}

module _ {F : Type 0} ⦃f : Float F⦄ (laws : IsFloat F) where
  open laws use {lt-eq-not-le, dec_number}

  slope_disjoint :
      (o : Option F)
      → test_number (λ slope. lef slope (of_ℕ 0)) o && test_number (λ slope. gtf slope (of_ℕ 0)) o
        ≡ false
  slope_disjoint none = refl
  slope_disjoint (some slope) = elim (Bool-cases (f.is_nan slope)) [
    | inl nan ↦ rw nan refl
    | inr number ↦
        let apart = lt-eq-not-le (of_ℕ 0) slope (dec_number (pos 0) 0) number in ground arith
  ]

  -- Recovery and broadening never fire on the same day, under the laws of float comparisons.
  pub recovery_broadening_disjoint :
      (b : BreadthV2 F) (dt : ℕ)
      → evaluate_recovery_breadth b dt && evaluate_broadening_breadth b dt ≡ false
  unfolding evaluate_recovery_breadth evaluate_broadening_breadth
  recovery_broadening_disjoint b dt =
      let apart = slope_disjoint (lookup b.ad_line_slope_20d dt) in ground arith
