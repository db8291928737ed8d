-- ===== src/Calendar/Neighbors.antt =====
-- The sessions next to a date.
use mathlib.Core.Path.{subst}
use regime_detection.Prelude.Int.{int_eq}
use regime_detection.Prelude.{
  some_inner, ℕ, ◌+◌, ◌-◌, ◌≤◌, ◌<◌, ◌≡◌, refl, sym, ap, ◌⊎◌, inl, inr, Bool, true, false, ◌||◌,
  Option, none, some, List, [], ◌∷◌, arith, ltb, ltb→lt, Bool-cases, Option-cases, ◌==◌, nat_eq,
  string_eq, bool_eq, contains, ok, ok-injective,
}
use regime_detection.Calendar.{
  Exchange, TradingDayNeighbors, keep, max_of, min_of, neighbors_of, nyse_neighbors,
  nyse_sessions_between, nyse_neighbor_window_days,
}

pub contains-keep :
    (test : ℕ → Bool) (days : List ℕ) (d : ℕ)
    → contains (keep test days) d ≡ true
    → (test d ≡ true) × (contains days d ≡ true)
contains-keep test [] d h = cc
contains-keep test (x ∷ days) d h = elim (Bool-cases (test x)) [
  | inr dropped ↦
      let found = contains-keep test days d (rw dropped at h) in
      (found.0, rw (found.1) (ground arith))
  | inl kept ↦ elim (Bool-cases (x == d)) [
    | inl here ↦ (subst (λ y. test y ≡ true) ((nat_eq.eq_test_iff x d).0 here) kept, rw here refl)
    | inr later ↦
        let h₁ = rw kept at h in
        let found = contains-keep test days d (rw later at h₁) in (found.0, rw later found.1)
  ]
]

pub keep-contains :
    (test : ℕ → Bool) (days : List ℕ) (d : ℕ)
    → test d ≡ true
    → contains days d ≡ true
    → contains (keep test days) d ≡ true
keep-contains test [] d fits h = cc
keep-contains test (x ∷ days) d fits h = elim (Bool-cases (x == d)) [
  | inl here ↦
      let kept = subst (λ y. test y ≡ true) (sym ((nat_eq.eq_test_iff x d).0 here)) fits in
      rw (kept, here) refl
  | inr later ↦
      let found = keep-contains test days d fits (rw later at h) in
      elim (Bool-cases (test x)) [
        | inl kept ↦ rw (kept, later) found
        | inr dropped ↦ rw dropped found
      ]
]

found_here : (x m : ℕ) → x ≡ m → (x == m) ≡ true
found_here x m same = (nat_eq.eq_test_iff x m).1 same

or_left : (a b : Bool) → a ≡ true → a || b ≡ true
or_left a b h = ground arith

or_right : (a b : Bool) → b ≡ true → a || b ≡ true
or_right a b h = ground arith

pub max-contains : (days : List ℕ) (m : ℕ) → max_of days ≡ some m → contains days m ≡ true
max-contains [] m h = cc
max-contains (x ∷ days) m h = elim (Option-cases (max_of days)) [
  | inl empty ↦
      let same : x ≡ m = some_inner (rw empty at h) in
      or_left _ (contains days m) (found_here x m same)
  | inr (k, found) ↦
      let same = some_inner (rw found at h) in
      elim (Bool-cases (ltb k x)) [
        | inl taken ↦ or_left _ (contains days m) (found_here x m (rw taken at same))
        | inr kept ↦
            or_right (x == m) (contains days m)
              (subst (λ y. contains days y ≡ true) (rw kept at same) (max-contains days k found))
      ]
]

pub max_none : (days : List ℕ) (d : ℕ) → max_of days ≡ none → contains days d ≡ false
max_none [] d h = refl
max_none (x ∷ days) d h = elim (Option-cases (max_of days)) [
  | inl empty ↦ let absurd = rw empty at h in cc
  | inr (k, found) ↦ let absurd = rw found at h in cc
]

pub max_bound : (days : List ℕ) (m d : ℕ) → max_of days ≡ some m → contains days d ≡ true → d ≤ m
max_bound [] m d h inside = cc
max_bound (x ∷ days) m d h inside = elim (Option-cases (max_of days)) [
  | inl empty ↦
      let same : x ≡ m = some_inner (rw empty at h) in
      let alone = max_none days d empty in
      elim (Bool-cases (x == d)) [
        | inl here ↦ let equal = (nat_eq.eq_test_iff x d).0 here in omega arith
        | inr later ↦ let absurd = rw (later, alone) at inside in cc
      ]
  | inr (k, found) ↦
      let same = some_inner (rw found at h) in
      elim (Bool-cases (x == d)) [
        | inl here ↦ let equal = (nat_eq.eq_test_iff x d).0 here in ground arith
        | inr later ↦ let below = max_bound days k d found (rw later at inside) in ground arith
      ]
]

min-contains : (days : List ℕ) (m : ℕ) → min_of days ≡ some m → contains days m ≡ true
min-contains [] m h = cc
min-contains (x ∷ days) m h = elim (Option-cases (min_of days)) [
  | inl empty ↦
      let same : x ≡ m = some_inner (rw empty at h) in
      or_left _ (contains days m) (found_here x m same)
  | inr (k, found) ↦
      let same = some_inner (rw found at h) in
      elim (Bool-cases (ltb x k)) [
        | inl taken ↦ or_left _ (contains days m) (found_here x m (rw taken at same))
        | inr kept ↦
            or_right (x == m) (contains days m)
              (subst (λ y. contains days y ≡ true) (rw kept at same) (min-contains days k found))
      ]
]

min_none : (days : List ℕ) (d : ℕ) → min_of days ≡ none → contains days d ≡ false
min_none [] d h = refl
min_none (x ∷ days) d h = elim (Option-cases (min_of days)) [
  | inl empty ↦ let absurd = rw empty at h in cc
  | inr (k, found) ↦ let absurd = rw found at h in cc
]

min_bound : (days : List ℕ) (m d : ℕ) → min_of days ≡ some m → contains days d ≡ true → m ≤ d
min_bound [] m d h inside = cc
min_bound (x ∷ days) m d h inside = elim (Option-cases (min_of days)) [
  | inl empty ↦
      let same : x ≡ m = some_inner (rw empty at h) in
      let alone = min_none days d empty in
      elim (Bool-cases (x == d)) [
        | inl here ↦ let equal = (nat_eq.eq_test_iff x d).0 here in omega arith
        | inr later ↦ let absurd = rw (later, alone) at inside in cc
      ]
  | inr (k, found) ↦
      let same = some_inner (rw found at h) in
      elim (Bool-cases (x == d)) [
        | inl here ↦ let equal = (nat_eq.eq_test_iff x d).0 here in ground arith
        | inr later ↦ let below = min_bound days k d found (rw later at inside) in ground arith
      ]
]

neighbors_of-cases :
    (p q : Option ℕ) (n : TradingDayNeighbors)
    → neighbors_of p q ≡ ok n
    → (p ≡ some n.prev_trading_day) × (q ≡ some n.next_trading_day)
unfolding neighbors_of
neighbors_of-cases none q n h = cc
neighbors_of-cases (some p) none n h = cc
neighbors_of-cases (some p) (some q) n h =
    let same = ok-injective h in
    (
      ap (λ (t : TradingDayNeighbors). some t.prev_trading_day) same,
      ap (λ (t : TradingDayNeighbors). some t.next_trading_day) same,
    )

-- The sessions of the window around a date.
abbrev pub window : Exchange → ℕ → List ℕ
window x d = nyse_sessions_between x (d - nyse_neighbor_window_days) (d + nyse_neighbor_window_days)

-- The neighbours are the nearest: they are sessions of the window strictly before and after the date,
-- and a session of the window that lies between them is the date itself.
pub nyse_neighbors_nearest :
    (x : Exchange) (d : ℕ) (n : TradingDayNeighbors) (s : ℕ)
    → nyse_neighbors x d ≡ ok n
    → contains (window x d) s ≡ true
    → (contains (window x d) n.prev_trading_day ≡ true)
      × (contains (window x d) n.next_trading_day ≡ true)
      × (n.prev_trading_day < d)
      × (d < n.next_trading_day)
      × ((s ≤ n.prev_trading_day) ⊎ ((s ≡ d) ⊎ (n.next_trading_day ≤ s)))
unfolding nyse_neighbors
nyse_neighbors_nearest x d n s h inside =
    let before : ℕ → Bool = λ t. ltb t d in
    let after : ℕ → Bool = λ t. ltb d t in
    let (is_prev, is_next) = neighbors_of-cases _ _ n h in
    let prev_in = contains-keep before (window x d) n.prev_trading_day (max-contains _ _ is_prev) in
    let next_in = contains-keep after (window x d) n.next_trading_day (min-contains _ _ is_next) in
    (
      prev_in.1,
      next_in.1,
      ltb→lt n.prev_trading_day d prev_in.0,
      ltb→lt d n.next_trading_day next_in.0,
      elim (Bool-cases (ltb s d)) [
        | inl earlier ↦
            inl (max_bound _ _ s is_prev (keep-contains before (window x d) s earlier inside))
        | inr not_earlier ↦ elim (Bool-cases (ltb d s)) [
          | inl later ↦
              inr (inr (min_bound _ _ s is_next (keep-contains after (window x d) s later inside)))
          | inr not_later ↦ inr (inl (ground arith))
        ]
      ],
    )
