-- ===== src/DataQuality/Paths.antt =====
-- The two paths of `_window_to_asof`: the bounds on an ascending index, and the sort and label slice
-- of any other index. Days are distinct where they are sorted.
use regime_detection.Prelude.Int.{int_eq}
use regime_detection.Prelude.{
  ℕ, zero, suc, ◌-◌, ◌≤◌, ◌≡◌, refl, ap, inl, inr, Bool, true, ◌&&◌, [], ◌∷◌, arith, leb,
  if◌then◌else◌, Bool-cases, nat_eq, string_eq, bool_eq, length, take, drop,
}
use regime_detection.DataQuality.{Series, search_sorted_right, window_to_asof}

and_left : (a b : Bool) → a && b ≡ true → a ≡ true
and_left a b h = ground arith

and_right : (a b : Bool) → a && b ≡ true → b ≡ true
and_right a b h = ground arith

module _ {ℓ} {F : Type ℓ} where
  -- `idx.is_monotonic_increasing`
  abbrev pub is_monotonic_increasing : Series F → Bool
  is_monotonic_increasing [] = true
  is_monotonic_increasing (row ∷ []) = true
  is_monotonic_increasing ((d, v) ∷ (e, w) ∷ rows) =
      leb d e && is_monotonic_increasing ((e, w) ∷ rows)

  -- `out.sort_index()`
  unfoldable pub insert_row : ℕ → F → Series F → Series F
  insert_row d v [] = (d, v) ∷ []
  insert_row d v ((e, w) ∷ rows) =
      let further = insert_row d v rows in
      if leb d e then (d, v) ∷ (e, w) ∷ rows else (e, w) ∷ further

  unfoldable pub sort_index : Series F → Series F
  unfolding insert_row
  sort_index [] = []
  sort_index ((d, v) ∷ rows) = insert_row d v (sort_index rows)

  -- `out.loc[:as_of_date]` of a sorted index
  unfoldable pub loc_to : ℕ → Series F → Series F
  loc_to as_of [] = []
  loc_to as_of ((d, v) ∷ rows) =
      let rest = loc_to as_of rows in if leb d as_of then (d, v) ∷ rest else []

  -- `rows.tail(n)`
  abbrev pub tail_rows : ℕ → Series F → Series F
  tail_rows n rows = drop (length rows - n) rows

  unfoldable pub slow_window : Series F → ℕ → ℕ → Series F
  unfolding sort_index loc_to
  slow_window series as_of required = tail_rows required (loc_to as_of (sort_index series))

  -- `_window_to_asof`
  unfoldable pub window_of : Series F → ℕ → ℕ → Series F
  unfolding slow_window window_to_asof
  window_of series as_of required =
      if is_monotonic_increasing series
      then window_to_asof series as_of required
      else slow_window series as_of required

  -- Sorting leaves an ascending index alone.
  insert_first :
      (d : ℕ) (v : F) (rows : Series F)
      → is_monotonic_increasing ((d, v) ∷ rows) ≡ true
      → insert_row d v rows ≡ (d, v) ∷ rows
  unfolding insert_row
  insert_first d v [] h = refl
  insert_first d v ((e, w) ∷ rows) h = rw (and_left (leb d e) _ h) refl

  tail_monotonic :
      (d : ℕ) (v : F) (rows : Series F)
      → is_monotonic_increasing ((d, v) ∷ rows) ≡ true
      → is_monotonic_increasing rows ≡ true
  tail_monotonic d v [] h = refl
  tail_monotonic d v ((e, w) ∷ rows) h = and_right (leb d e) _ h

  sort_sorted : (rows : Series F) → is_monotonic_increasing rows ≡ true → sort_index rows ≡ rows
  unfolding sort_index
  sort_sorted [] h = refl
  sort_sorted ((d, v) ∷ rows) h =
      rw (sort_sorted rows (tail_monotonic d v rows h)) (insert_first d v rows h)

  -- The label slice is the rows before the bound.
  loc-take :
      (as_of : ℕ) (rows : Series F) → loc_to as_of rows ≡ take (search_sorted_right rows as_of) rows
  unfolding loc_to search_sorted_right
  loc-take as_of [] = refl
  loc-take as_of ((d, v) ∷ rows) = elim (Bool-cases (leb d as_of)) [
    | inl inside ↦ rw inside (ap (◌∷◌ (d, v)) (loc-take as_of rows))
    | inr past ↦ rw past refl
  ]

  search_bound : (as_of : ℕ) (rows : Series F) → search_sorted_right rows as_of ≤ length rows
  unfolding search_sorted_right
  search_bound as_of [] = omega arith
  search_bound as_of ((d, v) ∷ rows) =
      let rest = search_bound as_of rows in
      elim (Bool-cases (leb d as_of)) [
        | inl inside ↦ rw inside (omega (arith, rest))
        | inr past ↦ rw past (omega arith)
      ]

  length-take : (n : ℕ) (rows : Series F) → n ≤ length rows → length (take n rows) ≡ n
  length-take zero rows h = refl
  length-take (suc n) [] h = omega arith
  length-take (suc n) (row ∷ rows) h = ap suc (length-take n rows (omega arith))

  take_none : (n : ℕ) → take {A = ℕ × F} n [] ≡ []
  take_none zero = refl
  take_none (suc n) = refl

  take-drop :
      (start stop : ℕ) (rows : Series F)
      → take (stop - start) (drop start rows) ≡ drop start (take stop rows)
  take-drop zero stop rows = let same : stop - 0 ≡ stop = omega arith in rw same refl
  take-drop (suc start) zero rows =
      let none_left : 0 - suc start ≡ 0 = omega arith in rw none_left refl
  take-drop (suc start) (suc stop) [] = take_none (suc stop - suc start)
  take-drop (suc start) (suc stop) (row ∷ rows) =
      let same : suc stop - suc start ≡ stop - start = omega arith in
      rw same (take-drop start stop rows)

  -- The window is the same on both paths: the bounds that the ascending index allows give the rows that
  -- sorting, slicing by label and taking the last rows give for every series.
  pub window_of-eq-slow_window :
      (series : Series F) (as_of required : ℕ)
      → window_of series as_of required ≡ slow_window series as_of required
  unfolding window_of
  window_of-eq-slow_window series as_of required =
      elim (Bool-cases (is_monotonic_increasing series)) [
        | inr unsorted ↦ rw unsorted refl
        | inl sorted ↦
            let end = search_sorted_right series as_of in
            rw
              (
                sorted,
                sort_sorted series sorted,
                loc-take as_of series,
                length-take end series (search_bound as_of series),
              )
              (take-drop (end - required) end series)
      ]
