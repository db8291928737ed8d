-- ===== src/Float/Meets.antt =====
-- The fixed-point numbers of the tests have the laws of the float interface.
use regime_detection.Prelude.Int.{ℤ, pos, pos_part, neg_part, sub_ℕ, leb_ℤ, int_eq}
use native.Mathlib.Nat.{div-mul-le_self, le-div_iff_mul-le}
use regime_detection.Prelude.{
  ℕ, zero, suc, ◌*◌, ◌/◌, ◌^◌, ◌≤◌, ◌<◌, ◌≡◌, refl, ◌⊎◌, true, false, not, none, some, arith,
  nat_eq, string_eq, bool_eq,
}
use regime_detection.Float.{IsFloat, Fixed, fixed_float, scale, scaled}

div_monotone : (x y d : ℕ) → 0 < d → x ≤ y → x / d ≤ y / d
div_monotone x y d positive h = (le-div_iff_mul-le positive).1 (ground (arith, div-mul-le_self x d))

power_positive : (k : ℕ) → 0 < 10 ^ k
power_positive zero = omega arith
power_positive (suc k) = ground (arith, power_positive k)

scale_monotone : (x y : ℕ) → x ≤ y → x * scale ≤ y * scale
scale_monotone x y h = omega arith

sub_ℕ-leb : (a b c d : ℕ) → a ≤ c → d ≤ b → leb_ℤ (sub_ℕ a b) (sub_ℕ c d) ≡ true
sub_ℕ-leb a b c d h k = ground arith

scaled_monotone :
    (m n : ℤ) (d : ℕ)
    → 0 < d
    → leb_ℤ m n ≡ true
    → leb_ℤ (scaled m scale (pos d)) (scaled n scale (pos d)) ≡ true
scaled_monotone m n d positive h =
    sub_ℕ-leb _ _ _ _
      (div_monotone _ _ d positive (scale_monotone (pos_part m) (pos_part n) (ground arith)))
      (div_monotone _ _ d positive (scale_monotone (neg_part n) (neg_part m) (ground arith)))

fixed_nan_le :
    (x y : Fixed)
    → fixed_float.is_nan x ≡ true
    → (fixed_float.le x y ≡ false) × (fixed_float.le y x ≡ false)
fixed_nan_le none none h = (refl, refl)
fixed_nan_le none (some b) h = (refl, refl)
fixed_nan_le (some a) y h = ground arith

fixed_nan_lt :
    (x y : Fixed)
    → fixed_float.is_nan x ≡ true
    → (fixed_float.lt x y ≡ false) × (fixed_float.lt y x ≡ false)
fixed_nan_lt none none h = (refl, refl)
fixed_nan_lt none (some b) h = (refl, refl)
fixed_nan_lt (some a) y h = ground arith

fixed_lt :
    (x y : Fixed)
    → fixed_float.is_nan x ≡ false
    → fixed_float.is_nan y ≡ false
    → fixed_float.lt x y ≡ not (fixed_float.le y x)
fixed_lt none y h k = ground arith
fixed_lt (some a) none h k = ground arith
fixed_lt (some a) (some b) h k = ground arith

fixed_total :
    (x y : Fixed)
    → fixed_float.is_nan x ≡ false
    → fixed_float.is_nan y ≡ false
    → (fixed_float.le x y ≡ true) ⊎ (fixed_float.le y x ≡ true)
fixed_total none y h k = ground arith
fixed_total (some a) none h k = ground arith
fixed_total (some a) (some b) h k = ground arith

fixed_trans :
    (x y z : Fixed)
    → fixed_float.le x y ≡ true
    → fixed_float.le y z ≡ true
    → fixed_float.le x z ≡ true
fixed_trans (some a) (some b) (some c) h k = ground arith
fixed_trans none y z h k = ground arith
fixed_trans (some a) none z h k = ground arith
fixed_trans (some a) (some b) none h k = ground arith

pub Fixed-IsFloat : IsFloat Fixed
Fixed-IsFloat = record {
  nan_le = fixed_nan_le;
  nan_lt = fixed_nan_lt;
  lt-eq-not-le = fixed_lt;
  le_total = fixed_total;
  le_trans = fixed_trans;
  dec_number = λ m k. refl;
  dec_le = λ m n k h. scaled_monotone m n (10 ^ k) (power_positive k) h;
}
