-- ===== src/Float.antt =====
-- What the engine does with a Python float: arithmetic, decimal literals and comparisons. The
-- arithmetic of the hardware is not part of the source, so the type and its operations are an
-- interface; `>` and `>=` are `<` and `<=` with the sides exchanged.
pub mod Meets
pub mod Order
use regime_detection.Prelude.{
  ℕ, ◌+◌, ◌*◌, ◌/◌, ◌^◌, ◌≡◌, Bool, true, false, not, ◌⊎◌, Option, none, some, if◌then◌else◌,
}
use regime_detection.Prelude.Int.{ℤ, pos, negsuc, pos_part, neg_part, sub_ℕ, ltb_ℤ, leb_ℤ, int_test}

pub record Float {ℓ} (F : Type ℓ) : Type ℓ where
  pub lt : F → F → Bool
  pub le : F → F → Bool
  pub eq : F → F → Bool
  pub is_nan : F → Bool
  pub nan : F
  -- `dec m k` is the literal m / 10 ^ k.
  pub dec : ℤ → ℕ → F
  pub add : F → F → F
  pub sub : F → F → F
  pub mul : F → F → F
  pub div : F → F → F
  pub neg : F → F
  pub abs : F → F

module _ {ℓ} {F : Type ℓ} ⦃f : Float F⦄ where
  abbrev pub ltf : F → F → Bool
  ltf = f.lt

  abbrev pub lef : F → F → Bool
  lef = f.le

  -- `x > y` and `x >= y`
  abbrev pub gtf : F → F → Bool
  gtf x y = f.lt y x

  abbrev pub gef : F → F → Bool
  gef x y = f.le y x

  -- An integer as a float.
  abbrev pub of_ℕ : ℕ → F
  of_ℕ n = f.dec (pos n) 0

  -- Python's `min(x, y)` and `max(x, y)`: the first argument unless the second is better.
  abbrev pub minf : F → F → F
  minf x y = if f.lt y x then y else x

  abbrev pub maxf : F → F → F
  maxf x y = if f.lt x y then y else x

-- IEEE 754 comparisons: NaN compares false with everything, and away from it `<=` is a total order
-- whose strict part is `<`. Literals are numbers, in their order.
pub record IsFloat {ℓ} (F : Type ℓ) ⦃f : Float F⦄ : Type ℓ where
  pub nan_le : (x y : F) → f.is_nan x ≡ true → (f.le x y ≡ false) × (f.le y x ≡ false)
  pub nan_lt : (x y : F) → f.is_nan x ≡ true → (f.lt x y ≡ false) × (f.lt y x ≡ false)
  pub lt-eq-not-le : (x y : F) → f.is_nan x ≡ false → f.is_nan y ≡ false → f.lt x y ≡ not (f.le y x)
  pub le_total :
      (x y : F) → f.is_nan x ≡ false → f.is_nan y ≡ false → (f.le x y ≡ true) ⊎ (f.le y x ≡ true)
  pub le_trans : (x y z : F) → f.le x y ≡ true → f.le y z ≡ true → f.le x z ≡ true
  pub dec_number : (m : ℤ) (k : ℕ) → f.is_nan (f.dec m k) ≡ false
  pub dec_le : (m n : ℤ) (k : ℕ) → leb_ℤ m n ≡ true → f.le (f.dec m k) (f.dec n k) ≡ true

-- The laws can be met: whole hundred-millionths, with `none` for NaN, and quotients rounded down in
-- magnitude. The tests of the other modules run on this type.
abbrev pub Fixed : Type 0
Fixed = Option ℤ

abbrev pub scale : ℕ
scale = 100_000_000

abbrev pub on_numbers : (ℤ → ℤ → Bool) → Fixed → Fixed → Bool
on_numbers t (some a) (some b) = t a b
on_numbers t _ _ = false

abbrev pub lift_numbers : (ℤ → ℤ → Fixed) → Fixed → Fixed → Fixed
lift_numbers g (some a) (some b) = g a b
lift_numbers g _ _ = none

-- (a * m) / d, the sign kept, for a positive or negative d.
abbrev pub scaled : ℤ → ℕ → ℤ → ℤ
scaled a m (pos d) = sub_ℕ (pos_part a * m / d) (neg_part a * m / d)
scaled a m (negsuc d) = sub_ℕ (neg_part a * m / (d + 1)) (pos_part a * m / (d + 1))

abbrev pub of_decimal : ℤ → ℕ → Fixed
of_decimal m k = some (scaled m scale (pos (10 ^ k)))

abbrev pub div_fixed : ℤ → ℤ → Fixed
div_fixed a b = if int_test b (pos 0) then none else some (scaled a scale b)

abbrev pub mul_fixed : ℤ → ℤ → Fixed
mul_fixed a b = some (
    sub_ℕ ((pos_part a * pos_part b + neg_part a * neg_part b) / scale)
      ((pos_part a * neg_part b + neg_part a * pos_part b) / scale))

abbrev pub negate : Fixed → Fixed
negate none = none
negate (some a) = some (sub_ℕ (neg_part a) (pos_part a))

abbrev pub magnitude : Fixed → Fixed
magnitude none = none
magnitude (some a) = some (pos (pos_part a + neg_part a))

abbrev pub is_none : Fixed → Bool
is_none none = true
is_none (some a) = false

instance abbrev pub fixed_float : Float Fixed
fixed_float = record {
  lt = on_numbers ltb_ℤ;
  le = on_numbers leb_ℤ;
  eq = on_numbers int_test;
  is_nan = is_none;
  nan = none;
  dec = of_decimal;
  add = lift_numbers (λ a b. some (sub_ℕ (pos_part a + pos_part b) (neg_part a + neg_part b)));
  sub = lift_numbers (λ a b. some (sub_ℕ (pos_part a + neg_part b) (neg_part a + pos_part b)));
  mul = lift_numbers mul_fixed;
  div = lift_numbers div_fixed;
  neg = negate;
  abs = magnitude;
}
