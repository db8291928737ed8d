-- ===== src/Rules/Volatility/Precedence.antt =====
-- The labels of the volatility axis and the rules that fire.
use regime_detection.Prelude.Int.{int_eq}
use regime_detection.Prelude.{
  test_if, ℕ, ◌≤◌, min, String, ◌≡◌, refl, ◌∙◌, inl, inr, Bool, true, false, not, ◌&&◌, ◌||◌, none,
  some, List, [], ◌∷◌, arith, ltb, leb, if◌then◌else◌, Bool-cases, ◌==◌, nat_eq, string_eq, bool_eq,
  length, ok, ok-injective,
}
use regime_detection.Prelude.Dict.{get_from}
use mathlib.Core.Path.{subst}
use regime_detection.Float.{Float}
use regime_detection.Rules.{rank_in, rank_if}
use regime_detection.Rules.Volatility.{
  VolatilityRow, VolatilityV2Features, VolatilityV2RulesConfig, v2_volatility_precedence, row_valid,
  raw_label, evaluate_rising_vol, evaluate_vol_crush, evaluate_v2_volatility_label, resolve_label,
}

pub rank-in_bound : (list : List String) (label : String) → rank_in list label ≤ length list
rank-in_bound [] label = omega arith
rank-in_bound (x ∷ list) label = elim (Bool-cases (x == label)) [
  | inl here ↦ rw here (omega arith)
  | inr later ↦ rw later (omega (arith, rank-in_bound list label))
]

-- The rank with the override, from the rank n of the raw label.
abbrev combined : ℕ → Bool → Bool → ℕ
combined n crush rising = min n (min (if crush then 1 else 7) (if rising then 3 else 7))

follow :
    (found label : String) (n : ℕ)
    → found ≡ label
    → rank_in v2_volatility_precedence found ≡ n
    → rank_in v2_volatility_precedence label ≡ n
follow found label n same h = subst (λ x. rank_in v2_volatility_precedence x ≡ n) same h

rising_rank :
    (rising : Bool) (v1 : String)
    → rank_in v2_volatility_precedence (get_from (if rising then some "rising_vol" else none) v1)
      ≡ (if rising then 3 else rank_in v2_volatility_precedence v1)
rising_rank true v1 = refl
rising_rank false v1 = refl

-- A row that is valid gets one of the four labels.
some_fires :
    (valid a b c : Bool)
    → (if valid && a
        then false
        else (if valid && b
            then false
            else (if valid && c
                then false
                else (if valid && not (valid && a || valid && b || valid && c)
                    then false
                    else true))))
      ≡ not valid
some_fires false a b c = refl
some_fires true true b c = refl
some_fires true false true c = refl
some_fires true false false true = refl
some_fires true false false false = refl

crush_step : (n : ℕ) (crush rising : Bool) → leb 1 n && crush ≡ true → 1 ≡ combined n crush rising
crush_step n crush rising h = grind arith

high_step :
    (n : ℕ) (crush rising : Bool)
    → leb 1 n && crush ≡ false
    → ltb n 3 ≡ true
    → n ≡ combined n crush rising
high_step n crush rising h k = grind arith

low_step :
    (n : ℕ) (crush rising : Bool)
    → leb 1 n && crush ≡ false
    → ltb n 3 ≡ false
    → n ≤ 7
    → (if rising then 3 else n) ≡ combined n crush rising
low_step n crush rising h k b = grind arith

module _ (F : Type 0) ⦃f : Float F⦄ where
  -- The raw label is unknown exactly for a row that lacks one of its four required features.
  pub raw_label-IsUnknown_iff :
      (r : VolatilityRow F) → (raw_label r == "unknown") ≡ not (row_valid r)
  unfolding raw_label
  raw_label-IsUnknown_iff r = simp (test_if) (some_fires (row_valid r) _ _ _)

  -- The label with the override is the first one in the documented precedence among the raw label
  -- and those of vol_crush and rising_vol where their rules fire, given that the rules can read
  -- their inputs.
  pub resolve_label_first :
      (features : VolatilityV2Features F) (config : VolatilityV2RulesConfig F) (r : VolatilityRow F)
      (rising : Bool) (label : String)
      → evaluate_rising_vol features r.day config ≡ ok rising
      → resolve_label (some (features, config)) r ≡ ok label
      → rank_in v2_volatility_precedence label
        ≡ min (rank_in v2_volatility_precedence (raw_label r)) (
            min
              (rank_if v2_volatility_precedence
                (evaluate_vol_crush features r.day config)
                "vol_crush")
              (rank_if v2_volatility_precedence rising "rising_vol"))
  unfolding resolve_label evaluate_v2_volatility_label
  resolve_label_first features config r rising label read h =
      let v1 = rank_in v2_volatility_precedence (raw_label r) in
      let crush = evaluate_vol_crush features r.day config in
      let bound = rank-in_bound v2_volatility_precedence (raw_label r) in
      elim (Bool-cases (leb 1 v1 && crush)) [
        | inl crushed ↦
            follow _ label _ (ok-injective (rw crushed at h)) (crush_step v1 crush rising crushed)
        | inr kept ↦
            let h₁ = rw kept at h in
            elim (Bool-cases (ltb v1 3)) [
              | inl high ↦
                  follow (raw_label r) label _ (ok-injective (rw high at h₁))
                    (high_step v1 crush rising kept high)
              | inr low ↦
                  let h₂ = rw low at h₁ in
                  let h₃ = ok-injective (rw read at h₂) in
                  follow _ label _ h₃
                    (rising_rank rising (raw_label r) ∙ low_step v1 crush rising kept low bound)
            ]
      ]
