-- ===== src/EventWindows/Labels/Covered.antt =====
-- Which days the window of a scheduled event covers, by the indexes of the sessions around it
-- (`_matching_scheduled_event_labels` of src/regime_data_fetch/event_calendar.py).
use regime_detection.Prelude.Int.{ℤ, pos, negsuc, pos_part, neg_part, ◌+ℤ◌, ◌≤ℤ◌, leb_ℤ, int_eq}
use regime_detection.Prelude.{
  ℕ, zero, suc, ◌+◌, ◌-◌, ◌≤◌, ◌≡◌, refl, ◌∙◌, inl, inr, Bool, false, ◌&&◌, ◌||◌, Option, none,
  some, List, [], ◌∷◌, arith, ltb, leb, Bool-cases, Option-cases, ◌==◌, nat_eq, string_eq, bool_eq,
  contains, length, get_elem?, take, drop, ok, ok-injective, some_inner,
}
use regime_detection.EventWindows.Expand.{
  Schedule, index_of, slice_bound, slice, window_at, expand_nyse_window_for_scheduled_event,
}
use regime_detection.EventWindows.Expand.Slices.{contains-slice}
use regime_detection.EventWindows.Expiry.Anchor.{Ascending}

-- A day is between the bounds of a window, which count from the index of the event.
abbrev pub is_between : Option ℕ → Option ℕ → ℤ × ℤ → Bool
is_between (some event_idx) (some idx) (start_offset, end_offset) =
    leb_ℤ (pos event_idx +ℤ start_offset) (pos idx) && leb_ℤ (pos idx) (pos event_idx +ℤ end_offset)
is_between _ _ offsets = false

no_member : (a b : Bool) → a || b ≡ false → (a ≡ false) × (b ≡ false)
no_member a b h = ground arith

index-elem : (days : List ℕ) (d i : ℕ) → index_of days d ≡ some i → get_elem? days i ≡ some d
index-elem [] d i h = cc
index-elem (x ∷ days) d i h = elim (Bool-cases (x == d)) [
  | inl here ↦
      let is_first = some_inner (rw here at h) in
      let same = (nat_eq.eq_test_iff x d).0 here in rw (← is_first, same) refl
  | inr there ↦ elim (Option-cases (index_of days d)) [
    | inl absent ↦ let h₁ = rw (there, absent) at h in cc
    | inr (k, found) ↦
        let h₁ = some_inner (rw (there, found) at h) in rw (← h₁) (index-elem days d k found)
  ]
]

absent-contains : (days : List ℕ) (d : ℕ) → index_of days d ≡ none → contains days d ≡ false
absent-contains [] d h = refl
absent-contains (x ∷ days) d h = elim (Bool-cases (x == d)) [
  | inl here ↦ let h₁ = rw here at h in cc
  | inr there ↦ elim (Option-cases (index_of days d)) [
    | inl absent ↦ rw there (absent-contains days d absent)
    | inr (k, found) ↦ let h₁ = rw (there, found) at h in cc
  ]
]

absent-take :
    (n : ℕ) (days : List ℕ) (d : ℕ) → contains days d ≡ false → contains (take n days) d ≡ false
absent-take zero days d h = refl
absent-take (suc n) [] d h = refl
absent-take (suc n) (x ∷ days) d h =
    let (here, later) = no_member (x == d) (contains days d) h in
    rw (here, absent-take n days d later) refl

absent-drop :
    (n : ℕ) (days : List ℕ) (d : ℕ) → contains days d ≡ false → contains (drop n days) d ≡ false
absent-drop zero days d h = h
absent-drop (suc n) [] d h = refl
absent-drop (suc n) (x ∷ days) d h = absent-drop n days d (no_member (x == d) (contains days d) h).1

fits_before : (a lookback : ℕ) (b : Bool) → ltb a lookback || b ≡ false → lookback ≤ a
fits_before a lookback b h = ground arith

start_at : (a : ℕ) (s : ℤ) → pos_part s ≡ 0 → neg_part s ≤ a → pos a +ℤ s ≡ pos (a - neg_part s)
unfolding ◌+ℤ◌
start_at a (pos n) start fits = ground arith
start_at a (negsuc n) start fits = ground arith

-- The end of a window that begins at a session is at a session or before the first by no index.
end_at :
    (a : ℕ) (s e : ℤ)
    → pos_part s ≡ 0
    → neg_part s ≤ a
    → s ≤ℤ e
    → (w : ℕ) × (pos a +ℤ e ≡ pos w) × (a - neg_part s ≤ w)
unfolding ◌+ℤ◌
end_at a s (pos n) start fits order = (a + n, ground arith, omega (arith, start, fits))
end_at a s (negsuc n) start fits order =
    (a - suc n, ground arith, omega (arith, start, fits, order))

between_bounds :
    (x w n p : ℕ)
    → x ≤ w
    → leb x p && ltb p (x + (slice_bound n (pos w +ℤ pos 1) - x))
      ≡ leb_ℤ (pos x) (pos p) && leb_ℤ (pos p) (pos w)
unfolding ◌+ℤ◌
between_bounds x w n p order = ground arith

-- A window that starts at the anchor or before it and does not end before it starts.
abbrev pub Backward : ℤ × ℤ → Type 0
Backward (start_offset, end_offset) = (pos_part start_offset ≡ 0) × (start_offset ≤ℤ end_offset)

slice-between :
    (days : List ℕ) (d a : ℕ) (s e : ℤ) (idx : Option ℕ)
    → Ascending days
    → Backward (s, e)
    → neg_part s ≤ a
    → index_of days d ≡ idx
    → contains (slice days (a - neg_part s) (pos a +ℤ e +ℤ pos 1)) d
      ≡ is_between (some a) idx (s, e)
slice-between days d a s e none ascending (start, order) fits h =
    absent-take _ (drop (a - neg_part s) days) d
      (absent-drop (a - neg_part s) days d (absent-contains days d h))
slice-between days d a s e (some p) ascending (start, order) fits h =
    let (w, is_w, after) = end_at a s e start fits order in
    contains-slice days _ _ p d ascending (index-elem days d p h)
    ∙ rw (is_w, start_at a s start fits) (between_bounds (a - neg_part s) w (length days) p after)

-- Where the window of an event is computed, it covers a day exactly when the day's index is between
-- the bounds of the window.
pub window-between :
    (schedule : Schedule) (date as_of lookback : ℕ) (s e : ℤ) (window : List ℕ)
    → Ascending (schedule (date - 14) (date + 14))
    → Backward (s, e)
    → neg_part s ≡ lookback
    → expand_nyse_window_for_scheduled_event schedule date lookback e ≡ ok window
    → contains window as_of
      ≡ is_between
          (index_of (schedule (date - 14) (date + 14)) date)
          (index_of (schedule (date - 14) (date + 14)) as_of)
          (s, e)
unfolding expand_nyse_window_for_scheduled_event window_at
window-between schedule date as_of lookback s e window ascending backward same h =
    let days = schedule (date - 14) (date + 14) in
    elim (Option-cases (index_of days date)) [
      | inl absent ↦ let h₁ = rw absent at h in cc
      | inr (a, found) ↦
          elim (Bool-cases (ltb a lookback || leb_ℤ (pos (length days)) (pos a +ℤ e))) [
            | inl raises ↦ let h₁ = rw (found, raises) at h in cc
            | inr fits ↦
                let h₁ = ok-injective (rw (found, fits) at h) in
                let within : neg_part s ≤ a = rw same (fits_before a lookback _ fits) in
                rw (found, ← h₁, ← same)
                  (slice-between days as_of a s e (index_of days as_of) ascending backward within
                    refl)
          ]
    ]
