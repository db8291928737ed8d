-- ===== src/Transition/Score/Bands.antt =====
-- The bands of the pressure score.
use regime_detection.Prelude.Int.{int_eq}
use regime_detection.Prelude.{
  ℕ, ◌≤◌, String, ◌≡◌, sym, ◌∙◌, ◌⊎◌, inl, inr, true, ◌||◌, arith, if◌then◌else◌, Bool-cases,
  Option-cases, ◌==◌, nat_eq, string_eq, bool_eq, value_error, Result, ok, bind_ok, ok-injective,
  raise_if_ok,
}
use regime_detection.Prelude.Dict.{Dict, lookup, get}
use mathlib.Core.Path.{subst}
use regime_detection.Float.{Float, IsFloat, ltf, gtf, of_ℕ}
use regime_detection.Float.Order.{le-lt_trans}
use regime_detection.Transition.Score.{interpret_transition_score, below_or}

-- The order of the bands.
abbrev pub band_rank : String → ℕ
band_rank name =
    if name == "stable"
    then 0
    else (if name == "weakening" then 1 else (if name == "transition_warning" then 2 else 3))

rank_at_least :
    (name other : String) (n : ℕ) → name ≡ other → n ≤ band_rank name → n ≤ band_rank other
rank_at_least name other n same h = subst (λ x. n ≤ band_rank x) same h

same_rank : (a b : String) → a ≡ b → band_rank a ≤ band_rank b
same_rank a b same = rank_at_least a b (band_rank a) same (omega arith)

module _ {F : Type 0} ⦃f : Float F⦄ (laws : IsFloat F) where
  -- One test of the chain, against an edge.
  test_monotone :
      (s t edge : F) (name : String) (rest_s rest_t : Result String) (a b : String)
      → f.le s t ≡ true
      → ((c d : String) → rest_s ≡ ok c → rest_t ≡ ok d → band_rank c ≤ band_rank d)
      → ((d : String) → rest_t ≡ ok d → band_rank name ≤ band_rank d)
      → (if ltf s edge then ok name else rest_s) ≡ ok a
      → (if ltf t edge then ok name else rest_t) ≡ ok b
      → band_rank a ≤ band_rank b
  test_monotone s t edge name rest_s rest_t a b le later above h k =
      elim (Bool-cases (ltf t edge)) [
        | inl t_below ↦
            let s_below = le-lt_trans laws s t edge le t_below in
            let a_name = ok-injective (rw s_below at h) in
            let b_name = ok-injective (rw t_below at k) in
            subst (λ x. band_rank x ≤ band_rank b) a_name
              (subst (λ x. band_rank name ≤ band_rank x) b_name (omega arith))
        | inr t_above ↦
            let from_rest = rw t_above at k in
            elim (Bool-cases (ltf s edge)) [
              | inl s_below ↦
                  let a_name = ok-injective (rw s_below at h) in
                  subst (λ x. band_rank x ≤ band_rank b) a_name (above b from_rest)
              | inr s_above ↦ later a b (rw s_above at h) from_rest
            ]
      ]

  below_or_monotone :
      (s t : F) (bands : Dict String (F × F)) (edge name : String) (rest_s rest_t : Result String)
      (a b : String)
      → f.le s t ≡ true
      → ((c d : String) → rest_s ≡ ok c → rest_t ≡ ok d → band_rank c ≤ band_rank d)
      → ((d : String) → rest_t ≡ ok d → band_rank name ≤ band_rank d)
      → below_or s bands edge name rest_s ≡ ok a
      → below_or t bands edge name rest_t ≡ ok b
      → band_rank a ≤ band_rank b
  unfolding below_or
  below_or_monotone s t bands edge name rest_s rest_t a b le later above h k =
      elim (Option-cases (lookup bands edge)) [
        | inl missing ↦ let absurd = rw missing at h in cc
        | inr (band, found) ↦
            test_monotone s t band.0 name rest_s rest_t a b le later above (rw found at h)
              (rw found at k)
      ]

  -- What a chain that ends well gives.
  below_or_cases :
      (s : F) (bands : Dict String (F × F)) (edge name : String) (rest : Result String) (a : String)
      → below_or s bands edge name rest ≡ ok a
      → (name ≡ a) ⊎ (rest ≡ ok a)
  unfolding below_or
  below_or_cases s bands edge name rest a h =
      let (band, found, h₁) = bind_ok (get bands edge) _ h in
      elim (Bool-cases (ltf s band.0)) [
        | inl below ↦ inl (ok-injective (rw below at h₁))
        | inr above ↦ inr (rw above at h₁)
      ]

  -- Where two scores both have a band, the higher one has not the milder band, whatever the edges
  -- of the bands are, under the laws of float comparisons.
  pub interpret_transition_score-Monotone :
      (s t : F) (bands : Dict String (F × F)) (a b : String)
      → f.le s t ≡ true
      → interpret_transition_score s bands ≡ ok a
      → interpret_transition_score t bands ≡ ok b
      → band_rank a ≤ band_rank b
  unfolding interpret_transition_score
  interpret_transition_score-Monotone s t bands a b le h k =
      let (s_unit, h₁) = raise_if_ok (ltf s (of_ℕ 0) || gtf s (of_ℕ 1)) value_error _ h in
      let (t_unit, k₁) = raise_if_ok (ltf t (of_ℕ 0) || gtf t (of_ℕ 1)) value_error _ k in
      below_or_monotone s t bands "weakening" "stable" _ _ a b le
        (λ c d hc hd.
          below_or_monotone s t bands "transition_warning" "weakening" _ _ c d le
            (λ c' d' hc' hd'.
              below_or_monotone s t bands "high" "transition_warning" (ok "high") (ok "high") c' d'
                le (λ x y hx hy. same_rank x y (sym (ok-injective hx) ∙ ok-injective hy))
                (λ y hy. rank_at_least "high" y 2 (ok-injective hy) (omega arith)) hc' hd')
            (λ y hy. elim (below_or_cases t bands "high" "transition_warning" (ok "high") y hy) [
              | inl warned ↦ rank_at_least "transition_warning" y 1 warned (omega arith)
              | inr high ↦ rank_at_least "high" y 1 (ok-injective high) (omega arith)
            ])
            hc hd)
        (λ y hy. omega arith) h₁ k₁
