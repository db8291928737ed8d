-- ===== src/Prelude/Errors.antt =====
-- Python's exceptions as values: a result is a value or the exception that left the function.
use mathlib.Core.Path.{◌≡◌, refl}
use mathlib.Core.Bool.{Bool, true, false}

-- The exception classes that the modelled code raises.
pub data Error : Type 0 where
  value_error key_error index_error runtime_error validation_error : Error
  event_calendar_fetch_error manifest_validation_error attribute_error : Error

pub data Result {ℓ} (A : Type ℓ) : Type ℓ where
  ok : A → Result A
  err : Error → Result A

-- An exception skips the statements that follow.
infixl 5 ◌>>=◌ ◌>>◌
abbrev pub ◌>>=◌ {ℓ κ} : {A : Type ℓ} {B : Type κ} → Result A → (A → Result B) → Result B
ok value >>= following = following value
err raised >>= following = err raised

abbrev pub ◌>>◌ {ℓ} : {B : Type ℓ} → Result (Unit {0}) → Result B → Result B
ok done >> following = following
err raised >> following = err raised

-- `if test: raise ...`
abbrev pub raise_if : Bool → Error → Result (Unit {0})
raise_if false raised = ok tt
raise_if true raised = err raised

pub ok-injective {ℓ} : {A : Type ℓ} {a b : A} → ok a ≡ ok b → a ≡ b
ok-injective h = cc

-- Where a sequence ended well, so did its first statement and what followed.
pub bind_ok {ℓ κ} :
    {A : Type ℓ} {B : Type κ} (first : Result A) (following : A → Result B) {last : B}
    → (first >>= following) ≡ ok last
    → (value : A) × (first ≡ ok value) × (following value ≡ ok last)
bind_ok (err raised) following ended = cc
bind_ok (ok value) following ended = (value, refl, ended)

-- A sequence that ended well did not raise.
pub raise_if_ok {ℓ} :
    {B : Type ℓ} (test : Bool) (raised : Error) (following : Result B) {last : B}
    → (raise_if test raised >> following) ≡ ok last
    → (test ≡ false) × (following ≡ ok last)
raise_if_ok true raised following ended = cc
raise_if_ok false raised following ended = (refl, ended)

-- Two sequences with the same first statement.
pub bind_same {ℓ κ} :
    {A : Type ℓ} {B : Type κ} (first : Result A) (f g : A → Result B)
    → ((value : A) → f value ≡ g value)
    → (first >>= f) ≡ (first >>= g)
bind_same (ok value) f g same = same value
bind_same (err raised) f g same = refl

-- Where a check and what followed ended well, both did.
pub then_ok {ℓ} :
    {B : Type ℓ} (first : Result (Unit {0})) (following : Result B) {last : B}
    → (first >> following) ≡ ok last
    → (first ≡ ok tt) × (following ≡ ok last)
then_ok (err raised) following ended = cc
then_ok (ok done) following ended = (refl, ended)

-- A check that passed did not raise.
pub raise_if_passed : (test : Bool) (raised : Error) → raise_if test raised ≡ ok tt → test ≡ false
raise_if_passed true raised passed = cc
raise_if_passed false raised passed = refl
