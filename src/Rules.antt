-- ===== src/Rules.antt =====
-- The rule engines of the axes. What they share: reads of an indexed series (the scalar helpers of
-- src/regime_detection/_rule_helpers.py) and precedence lists. The days of a series are distinct.
pub mod MonetaryPressure
pub mod VolumeLiquidity
pub mod Volatility
pub mod Breadth
pub mod TrendDirection
pub mod TrendCharacter
use regime_detection.Prelude.Int.{int_eq}
use regime_detection.Prelude.{
  ℕ, suc, String, ◌≡◌, refl, Bool, true, false, Option, none, some, List, [], ◌∷◌, if◌then◌else◌,
  ◌==◌, nat_eq, string_eq, bool_eq, length, any,
}
use regime_detection.Prelude.Dict.{lookup}
use regime_detection.Float.{Float}
use regime_detection.DataQuality.{Series}

-- `series.index.get_loc(dt)`
abbrev pub position {ℓ} : {F : Type ℓ} → Series F → ℕ → Option ℕ
position [] dt = none
position ((day, value) ∷ rows) dt = if day == dt then some 0 else next (position rows dt)
  where
    next : Option ℕ → Option ℕ
    next none = none
    next (some n) = some (suc n)

-- The place of a label in a precedence list, `precedence.index(label)`; its length where it is not
-- in the list.
abbrev pub rank_in : List String → String → ℕ
rank_in [] label = 0
rank_in (x ∷ xs) label = let later = rank_in xs label in if x == label then 0 else suc later

-- The rank that a rule brings: its own where it fires.
abbrev pub rank_if : List String → Bool → String → ℕ
rank_if precedence fires label = if fires then rank_in precedence label else length precedence

-- `labels[mask] = name`, for one row.
abbrev pub mark : Bool → String → String → String
mark test name label = if test then name else label

module _ {ℓ} {F : Type ℓ} ⦃f : Float F⦄ where
  abbrev pub any_nan : List F → Bool
  any_nan values = any f.is_nan values

  -- A value that is read, NaN in its canonical form.
  abbrev pub canonical : F → F
  canonical value = if f.is_nan value then f.nan else value

  abbrev pub or_nan : Option F → F
  or_nan none = f.nan
  or_nan (some value) = canonical value

  -- `scalar_at(series, dt)`
  unfoldable pub scalar_at : Series F → ℕ → F
  scalar_at series dt = or_nan (lookup series dt)

pub if_test : (b : Bool) → (if b then true else false) ≡ b
if_test true = refl
if_test false = refl
