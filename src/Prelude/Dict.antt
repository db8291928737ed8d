-- ===== src/Prelude/Dict.antt =====
-- Python dictionaries as association lists in insertion order; the first entry with the key counts.
use mathlib.Core.List.{List, [], ◌∷◌}
use mathlib.Core.Option.{Option, none, some}
use mathlib.Core.Bool.{Bool}
use mathlib.Core.Path.{◌≡◌, subst}
use mathlib.Core.Logic.{inl, inr}
use regime_detection.Prelude.Tests.{if◌then◌else◌, Bool-cases, some_inner}
use regime_detection.Prelude.Lists.{All}
use regime_detection.Prelude.Equality.{PyEq, ◌==◌, contains}
use regime_detection.Prelude.Errors.{Result, ok, err, key_error}

abbrev pub Dict {ℓ κ} : Type ℓ → Type κ → Type (ℓ ⊔ κ)
Dict K V = List (K × V)

module _ {κ} {V : Type κ} where
  abbrev pub get_from : Option V → V → V
  get_from none v = v
  get_from (some w) v = w

  abbrev pub or_key_error : Option V → Result V
  or_key_error none = err key_error
  or_key_error (some v) = ok v

module _ {ℓ κ} {K : Type ℓ} {V : Type κ} where
  abbrev pub keys : Dict K V → List K
  keys [] = []
  keys ((k, v) ∷ d) = k ∷ keys d

module _ {ℓ κ} {K : Type ℓ} {V : Type κ} ⦃e : PyEq K⦄ where
  -- `d.get(k)`
  abbrev pub lookup : Dict K V → K → Option V
  lookup [] k = none
  lookup ((j, v) ∷ d) k = if j == k then some v else lookup d k

  -- `d.get(k, v)`
  abbrev pub get_or : Dict K V → K → V → V
  get_or d k v = get_from (lookup d k) v

  -- `d[k]`
  abbrev pub get : Dict K V → K → Result V
  get d k = or_key_error (lookup d k)

  -- `k in d`
  abbrev pub has_key : Dict K V → K → Bool
  has_key d k = contains (keys d) k

  -- What all values of a dictionary have, one that is looked up has.
  pub lookup-All {ρ} :
      (P : V → Type ρ) (d : Dict K V) (k : K) (v : V)
      → All (λ entry. P entry.1) d
      → lookup d k ≡ some v
      → P v
  lookup-All P [] k v h found = cc
  lookup-All P ((j, w) ∷ d) k v (here, later) found = elim (Bool-cases (j == k)) [
    | inl same ↦ subst P (some_inner (rw same at found)) here
    | inr other ↦ lookup-All P d k v later (rw other at found)
  ]
