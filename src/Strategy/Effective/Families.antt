-- ===== src/Strategy/Effective/Families.antt =====
-- Which families the dictionary of the effective constraints lists (strategy_constraints.py).
use regime_detection.Prelude.Int.{int_eq}
use Prim.Native.String.{compare as compare_text}
use text.Mathlib.Text.{is_lt}
use regime_detection.Prelude.{
  String, ◌≡◌, refl, ◌∙◌, inl, inr, Bool, true, false, ◌||◌, Option, List, [], ◌∷◌, ◌++◌, arith,
  Bool-cases, ◌==◌, nat_eq, string_eq, bool_eq, contains,
}
use regime_detection.CohortRouting.{AgentRouting}
use regime_detection.Strategy.{strategy_families}
use regime_detection.Strategy.Effective.{
  insert_name, sorted_names, append_missing, response_families, blocked_modes, all_families,
}

or_again : (a b : Bool) → (a || b) ≡ (a || (a || b))
or_again a b = ground arith

or_swap : (a b c : Bool) → (a || (b || c)) ≡ (b || (a || c))
or_swap a b c = ground arith

or_assoc : (a b c : Bool) → ((a || (b || false)) || c) ≡ (a || (b || c))
or_assoc a b c = ground arith

or_group : (a b c : Bool) → ((a || b) || c) ≡ (a || (b || c))
or_group a b c = ground arith

contains-append :
    (xs ys : List String) (a : String) → contains (xs ++ ys) a ≡ (contains xs a || contains ys a)
contains-append [] ys a = refl
contains-append (x ∷ xs) ys a = ground (arith, contains-append xs ys a)

contains-insert_name :
    (n : String) (ns : List String) (a : String)
    → contains (insert_name n ns) a ≡ ((n == a) || contains ns a)
unfolding insert_name
contains-insert_name n [] a = refl
contains-insert_name n (m ∷ ms) a = elim (Bool-cases (n == m)) [
  | inl eq ↦
      let same : n ≡ m = (string_eq.eq_test_iff n m).0 eq in
      rw (eq, same) (or_again (m == a) (contains ms a))
  | inr ne ↦ rw ne (elim (Bool-cases (is_lt (compare_text n m))) [
    | inl lt ↦ rw lt
    | inr ge ↦ rw (ge, contains-insert_name n ms a) (or_swap (m == a) (n == a) (contains ms a))
  ])
]

contains-sorted_names :
    (ns : List String) (a : String) → contains (sorted_names ns) a ≡ contains ns a
unfolding sorted_names
contains-sorted_names [] a = refl
contains-sorted_names (n ∷ ns) a =
    contains-insert_name n (sorted_names ns) a ∙ rw (contains-sorted_names ns a)

contains-append_missing :
    (families ns : List String) (a : String)
    → contains (append_missing families ns) a ≡ (contains families a || contains ns a)
unfolding append_missing
contains-append_missing families [] a = ground arith
contains-append_missing families (n ∷ ns) a = elim (Bool-cases (contains families n)) [
  | inl old ↦
      rw (old, contains-append_missing families ns a)
        (elim (Bool-cases (n == a)) [
          | inl eq ↦
              let same : n ≡ a = (string_eq.eq_test_iff n a).0 eq in
              let known : contains families a ≡ true = rw same at old in rw known
          | inr ne ↦ rw ne
        ])
  | inr new ↦
      rw
        (
          new,
          contains-append_missing (families ++ (n ∷ [])) ns a,
          contains-append families (n ∷ []) a,
        )
        (or_assoc (contains families a) (n == a) (contains ns a))
]

pub contains-all_families :
    (routing : Option AgentRouting) (family : String)
    → contains (all_families routing) family ≡ (
        contains strategy_families family
        || (contains response_families family || contains (blocked_modes routing) family))
unfolding all_families
contains-all_families routing family =
    contains-append_missing (append_missing strategy_families response_families)
      (sorted_names (blocked_modes routing)) family
    ∙ rw
        (
          contains-append_missing strategy_families response_families family,
          contains-sorted_names (blocked_modes routing) family,
        )
        (or_group (contains strategy_families family) (contains response_families family)
          (contains (blocked_modes routing) family))
