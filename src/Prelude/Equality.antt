-- ===== src/Prelude/Equality.antt =====
-- Python's `==` and `in`, as one operator for every type that has a lawful test.
use Prim.Native.Nat.{ℕ, compare, Ordering}
use Prim.Native.String.{String}
use mathlib.Core.Path.{◌≡◌, refl}
use mathlib.Core.Logic.{◌↔◌}
use mathlib.Core.Bool.{Bool, true, false, ◌||◌}
use mathlib.Core.Option.{Option, none, some}
use mathlib.Core.List.{List, [], ◌∷◌}
use native.Mathlib.Omega.{arith}
use regime_detection.Prelude.Tests.{if◌then◌else◌}
use text.Mathlib.Text.{◌==◌ as str_eq}
use text.Mathlib.TextEquality.{eq_iff}

pub record PyEq {ℓ} (A : Type ℓ) : Type ℓ where
  pub eq_test : A → A → Bool
  pub eq_test_iff : (a b : A) → (eq_test a b ≡ true) ↔ (a ≡ b)

infix 50 ◌==◌
abbrev pub ◌==◌ {ℓ} : {A : Type ℓ} ⦃e : PyEq A⦄ → A → A → Bool
◌==◌ ⦃e⦄ = e.eq_test

abbrev pub nat_test : ℕ → ℕ → Bool
nat_test a b = elim (compare a b) [ Ordering.eq ↦ true | _ ↦ false ]

pub nat_eq_test_iff : (a b : ℕ) → (nat_test a b ≡ true) ↔ (a ≡ b)
nat_eq_test_iff a b = ground arith

instance abbrev pub nat_eq : PyEq ℕ
nat_eq = record { eq_test = nat_test; eq_test_iff = nat_eq_test_iff }

instance abbrev pub string_eq : PyEq String
string_eq = record { eq_test = str_eq; eq_test_iff = eq_iff }

abbrev pub bool_test : Bool → Bool → Bool
bool_test true b = b
bool_test false true = false
bool_test false false = true

pub bool_test_iff : (a b : Bool) → (bool_test a b ≡ true) ↔ (a ≡ b)
bool_test_iff a b = ground arith

instance abbrev pub bool_eq : PyEq Bool
bool_eq = record { eq_test = bool_test; eq_test_iff = bool_test_iff }

module _ {ℓ} {A : Type ℓ} ⦃e : PyEq A⦄ where
  -- A value against one that may be `None`.
  abbrev pub is_some_of : Option A → A → Bool
  is_some_of none a = false
  is_some_of (some b) a = b == a

  -- `a in xs`
  abbrev pub contains : List A → A → Bool
  contains [] a = false
  contains (x ∷ xs) a = x == a || contains xs a

  pub ==_refl : (a : A) → (a == a) ≡ true
  ==_refl a = (e.eq_test_iff a a).1 refl

-- A test of a conditional value.
pub test_if :
    (b : Bool) (x y s : String) → ((if b then x else y) == s) ≡ (if b then x == s else y == s)
test_if true x y s = refl
test_if false x y s = refl
