-- ===== src/Float/Order.antt =====
-- Consequences of the laws of the float interface.
use regime_detection.Prelude.Int.{int_eq}
use regime_detection.Prelude.{
  ◌≡◌, inl, inr, true, false, arith, Bool-cases, nat_eq, string_eq, bool_eq,
}
use regime_detection.Float.{Float, IsFloat, minf}

module _ {F : Type 0} ⦃f : Float F⦄ (laws : IsFloat F) where
  open laws use {nan_lt, nan_le, lt-eq-not-le, le_total, le_trans}

  pub le_refl : (x : F) → f.is_nan x ≡ false → f.le x x ≡ true
  le_refl x number = elim (le_total x x number number) [ inl h ↦ h | inr h ↦ h ]

  pub lt_number : (x y : F) → f.lt x y ≡ true → (f.is_nan x ≡ false) × (f.is_nan y ≡ false)
  lt_number x y h = ground (arith, nan_lt x y, nan_lt y x)

  pub lt→lef : (x y : F) → f.lt x y ≡ true → f.le x y ≡ true
  lt→lef x y h =
      let (nx, ny) = lt_number x y h in ground (arith, lt-eq-not-le x y nx ny, le_total x y nx ny)

  pub minf-le :
      (x y : F) → f.is_nan x ≡ false → (f.le (minf x y) x ≡ true) × (f.is_nan (minf x y) ≡ false)
  minf-le x y number = elim (Bool-cases (f.lt y x)) [
    | inl less ↦ rw less (lt→lef y x less, (lt_number y x less).0)
    | inr more ↦ rw more (le_refl x number, number)
  ]

  pub le_number : (x y : F) → f.le x y ≡ true → (f.is_nan x ≡ false) × (f.is_nan y ≡ false)
  le_number x y h = ground (arith, nan_le x y, nan_le y x)

  pub le-lt_trans : (x y z : F) → f.le x y ≡ true → f.lt y z ≡ true → f.lt x z ≡ true
  le-lt_trans x y z h k =
      let (nx, ny) = le_number x y h in
      let (ny', nz) = lt_number y z k in
      ground (arith, lt-eq-not-le x z nx nz, lt-eq-not-le y z ny nz, le_trans z x y)
