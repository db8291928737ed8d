-- ===== src/Manifest/Payload.antt =====
-- The plain values that a manifest is read from, and the conversions of its fields.
use regime_detection.Prelude.Int.{ℤ, pos, int_eq}
use regime_detection.Prelude.{
  manifest_validation_error, String, Bool, true, false, not, Option, none, some, List, [], ◌∷◌,
  if◌then◌else◌, ◌==◌, nat_eq, string_eq, bool_eq, Result, ok, err, ◌>>=◌,
}

-- A payload as YAML gives it, without its floats and dates.
mutual
  pub data Value : Type 0 where
    null : Value
    truth : Bool → Value
    number : ℤ → Value
    text : String → Value
    sequence : Values → Value
    mapping : Entries → Value

  pub data Values : Type 0 where
    nil : Values
    cons : Value → Values → Values

  pub data Entries : Type 0 where
    end : Entries
    entry : String → Value → Entries → Entries

-- `str(value)` of what is not a text and `int(value)` of what is not an integer.
pub record Conversions : Type 0 where
  pub show : Value → String
  pub to_int : Value → Result ℤ

-- `payload.get(key, default)`
abbrev pub get_default : Entries → String → Value → Value
get_default end key default = default
get_default (entry k v rest) key default =
    let later = get_default rest key default in if k == key then v else later

abbrev pub get_value : Entries → String → Value
get_value payload key = get_default payload key null

-- `bool(value)`
abbrev pub is_truthy : Value → Bool
is_truthy null = false
is_truthy (truth b) = b
is_truthy (number n) = not (n == pos 0)
is_truthy (text s) = not (s == "")
is_truthy (sequence nil) = false
is_truthy (sequence (cons v vs)) = true
is_truthy (mapping end) = false
is_truthy (mapping (entry k v es)) = true

abbrev pub str_of : Conversions → Value → String
str_of c (text s) = s
str_of c v = c.show v

abbrev pub int_of : Conversions → Value → Result ℤ
int_of c (number n) = ok n
int_of c v = c.to_int v

abbrev pub optional_text : Conversions → Value → Option String
optional_text c null = none
optional_text c v = some (str_of c v)

abbrev some_int : Result ℤ → Result (Option ℤ)
some_int outcome = outcome >>= λ n. ok (some n)

abbrev pub optional_int : Conversions → Value → Result (Option ℤ)
optional_int c null = ok none
optional_int c v = some_int (int_of c v)

-- The texts of a list, where all items are texts.
abbrev with_text : Value → Option (List String) → Option (List String)
with_text (text s) (some rest) = some (s ∷ rest)
with_text _ _ = none

abbrev pub texts_of : Values → Option (List String)
texts_of nil = some []
texts_of (cons v vs) = with_text v (texts_of vs)

abbrev or_invalid {ℓ} : {A : Type ℓ} → Option A → Result A
or_invalid none = err manifest_validation_error
or_invalid (some a) = ok a

abbrev pub required_for_of : Value → Result (List String)
required_for_of (sequence vs) = or_invalid (texts_of vs)
required_for_of _ = err manifest_validation_error
