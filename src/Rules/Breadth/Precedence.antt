-- ===== src/Rules/Breadth/Precedence.antt =====
-- The labels of the breadth axis and the rules that fire.
use regime_detection.Prelude.Int.{int_eq}
use regime_detection.Prelude.{
  ℕ, ◌≤◌, ◌<◌, min, String, ◌≡◌, refl, ◌∙◌, inl, inr, Bool, true, false, ◌&&◌, List, [], ◌∷◌, arith,
  if◌then◌else◌, Bool-cases, ◌==◌, nat_eq, string_eq, bool_eq, contains, All,
}
use mathlib.Core.Path.{subst}
use regime_detection.Float.{Float}
use regime_detection.Rules.{rank_in, rank_if}
use regime_detection.Rules.Breadth.{
  BreadthV2, overridable, thrust_fires, evaluate_narrowing_breadth, evaluate_recovery_breadth,
  evaluate_broadening_breadth, resolve_day,
}

-- The documented precedence.
abbrev pub precedence : List String
precedence =
    "breadth_thrust" ∷ "divergent_fragile" ∷ "narrowing_breadth" ∷ "recovery_breadth"
    ∷ "broadening_breadth" ∷ "weak_breadth" ∷ "healthy_breadth" ∷ "neutral_breadth" ∷ "unknown" ∷ []

-- The labels of the first pass.
abbrev pub v1_labels : List String
v1_labels =
    "divergent_fragile" ∷ "weak_breadth" ∷ "healthy_breadth" ∷ "neutral_breadth" ∷ "unknown" ∷ []

chain :
    (t d n r b : Bool) (v1 : String)
    → rank_in precedence (
        if t
        then "breadth_thrust"
        else (if d
            then "divergent_fragile"
            else (if n
                then "narrowing_breadth"
                else (if r then "recovery_breadth" else (if b then "broadening_breadth" else v1)))))
      ≡ (if t
          then 0
          else (if d
              then 1
              else (if n then 2 else (if r then 3 else (if b then 4 else rank_in precedence v1)))))
chain true d n r b v1 = refl
chain false true n r b v1 = refl
chain false false true r b v1 = refl
chain false false false true b v1 = refl
chain false false false false true v1 = refl
chain false false false false false v1 = refl

-- The least rank among the first label and those of the rules that fire.
abbrev pub least_rank : Bool → Bool → Bool → Bool → String → ℕ
least_rank t n r b v1 = min (rank_if precedence t "breadth_thrust") (
    min (rank_if precedence n "narrowing_breadth") (
      min (rank_if precedence r "recovery_breadth")
        (min (rank_if precedence b "broadening_breadth") (rank_in precedence v1))))

overridden :
    (t n r b : Bool) (v : ℕ)
    → 4 < v
    → v ≤ 9
    → (if t then 0 else (if n then 2 else (if r then 3 else (if b then 4 else v))))
      ≡ min
          (if t then 0 else 9)
          (min (if n then 2 else 9) (min (if r then 3 else 9) (min (if b then 4 else 9) v)))
overridden t n r b v h k = grind arith

kept :
    (t n r b : Bool)
    → (if t then 0 else 1)
      ≡ min
          (if t then 0 else 9)
          (min (if n then 2 else 9) (min (if r then 3 else 9) (min (if b then 4 else 9) 1)))
kept t n r b = grind arith

abbrev Decided : Bool → Bool → Bool → Bool → String → Type 0
Decided t n r b v1 =
    (if t
      then 0
      else (if v1 == "divergent_fragile"
          then 1
          else (if n
              then 2
              else (if overridable v1 && r
                  then 3
                  else (if overridable v1 && b then 4 else rank_in precedence v1)))))
    ≡ least_rank t n r b v1

decided : (t n r b : Bool) → All (Decided t n r b) v1_labels
decided t n r b = (
  kept t n r b,
  (
    overridden t n r b 5 (omega arith) (omega arith),
    (
      overridden t n r b 6 (omega arith) (omega arith),
      (
        overridden t n r b 7 (omega arith) (omega arith),
        (overridden t n r b 8 (omega arith) (omega arith), tt),
      ),
    ),
  ),
)

-- What holds of every label of a list holds of a label in it.
member_holds :
    (P : String → Type 0) (list : List String) (x : String)
    → All P list
    → contains list x ≡ true
    → P x
member_holds P [] x every h = cc
member_holds P (y ∷ list) x (now, every) h = elim (Bool-cases (y == x)) [
  | inl here ↦ subst P ((string_eq.eq_test_iff y x).0 here) now
  | inr later ↦ member_holds P list x every (rw later at h)
]

module _ (F : Type 0) ⦃f : Float F⦄ where
  -- The label of a day is the first one in the documented precedence among the first label and those
  -- whose rule fires, where the first label is one that the first pass gives.
  pub resolve_day_first :
      (b : BreadthV2 F) (day : ℕ) (v1 : String)
      → contains v1_labels v1 ≡ true
      → rank_in precedence (resolve_day b day v1)
        ≡ least_rank
            (thrust_fires b day)
            (evaluate_narrowing_breadth b day)
            (evaluate_recovery_breadth b day)
            (evaluate_broadening_breadth b day)
            v1
  unfolding resolve_day
  resolve_day_first b day v1 known =
      chain (thrust_fires b day) (v1 == "divergent_fragile") (evaluate_narrowing_breadth b day)
        (overridable v1 && evaluate_recovery_breadth b day)
        (overridable v1 && evaluate_broadening_breadth b day) v1
      ∙ member_holds
          (Decided (thrust_fires b day) (evaluate_narrowing_breadth b day)
            (evaluate_recovery_breadth b day) (evaluate_broadening_breadth b day))
          v1_labels v1
          (decided (thrust_fires b day) (evaluate_narrowing_breadth b day)
            (evaluate_recovery_breadth b day) (evaluate_broadening_breadth b day))
          known
