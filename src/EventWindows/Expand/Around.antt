-- ===== src/EventWindows/Expand/Around.antt =====
-- The window is the sessions around the anchor.
use regime_detection.Prelude.Int.{ℤ, pos, ◌+ℤ◌, int_eq}
use regime_detection.Prelude.{
  ℕ, zero, suc, ◌+◌, ◌-◌, ◌≤◌, ◌≡◌, refl, ap, inl, inr, Bool, true, false, ◌&&◌, ◌||◌, none, some,
  List, [], ◌∷◌, ◌++◌, arith, ltb, leb, if◌then◌else◌, leb→le, Bool-cases, ◌==◌, nat_eq, string_eq,
  bool_eq, contains, ==_refl, length, take, drop, length-append, length-drop, drop-append_of_le,
  Error, runtime_error, Result, ok, err,
}
use regime_detection.EventWindows.Expand.{
  event_calendar_fetch_error, Schedule, index_of, slice, window_at, expand_trading_day_window,
  expand_nyse_window_for_scheduled_event,
}

index-anchor :
    (before after : List ℕ) (day : ℕ)
    → contains before day ≡ false
    → index_of (before ++ (day ∷ after)) day ≡ some (length before)
index-anchor [] after day fresh = rw (==_refl day) refl
index-anchor (d ∷ before) after day fresh = elim (Bool-cases (d == day)) [
  | inl here ↦ let absurd = rw here at fresh in cc
  | inr other ↦ rw (other, index-anchor before after day (rw other at fresh)) refl
]

index_absent : (days : List ℕ) (day : ℕ) → contains days day ≡ false → index_of days day ≡ none
index_absent [] day absent = refl
index_absent (d ∷ days) day absent = elim (Bool-cases (d == day)) [
  | inl here ↦ let absurd = rw here at absent in cc
  | inr other ↦ rw (other, index_absent days day (rw other at absent)) refl
]

take-append : (n k : ℕ) (xs ys : List ℕ) → n ≡ length xs + k → take n (xs ++ ys) ≡ xs ++ take k ys
take-append n k [] ys same = let n-eq-k : n ≡ k = omega arith in rw n-eq-k refl
take-append zero k (x ∷ xs) ys same = absurd (omega arith)
take-append (suc n) k (x ∷ xs) ys same = ap (◌∷◌ x) (take-append n k xs ys (omega arith))

and_left : (a b : Bool) → a && b ≡ true → a ≡ true
and_left a b h = ground arith

pos-+ : (a b : ℕ) → pos a +ℤ pos b ≡ pos (a + b)
unfolding ◌+ℤ◌
pos-+ a b = ground arith

-- The window that the anchor's neighbours make, or the failure where a side is too short.
abbrev pub around : Error → List ℕ → ℕ → List ℕ → ℕ → ℕ → Result (List ℕ)
around raised before anchor after lookback lookahead =
    if leb lookback (length before) && leb lookahead (length after)
    then ok (drop (length before - lookback) before ++ (anchor ∷ take lookahead after))
    else err raised

slice-around :
    (before after : List ℕ) (anchor lookback lookahead : ℕ)
    → lookback ≤ length before
    → slice
        (before ++ (anchor ∷ after))
        (length before - lookback)
        (pos (length before + lookahead + 1))
      ≡ drop (length before - lookback) before ++ (anchor ∷ take lookahead after)
slice-around before after anchor lookback lookahead fits =
    let from = length before - lookback in
    let size : length before + lookahead + 1 - from ≡ length (drop from before) + suc lookahead =
      rw (length-drop from before) (omega (arith, fits)) in
    rw (drop-append_of_le from before (anchor ∷ after) (omega arith)) (
      take-append (length before + lookahead + 1 - from) (suc lookahead) (drop from before)
        (anchor ∷ after) size)

window_at-around :
    (raised : Error) (before after : List ℕ) (anchor lookback lookahead : ℕ)
    → window_at raised (before ++ (anchor ∷ after)) lookback (pos lookahead) (some (length before))
      ≡ around raised before anchor after lookback lookahead
unfolding window_at
window_at-around raised before after anchor lookback lookahead =
    let size = length-append before (anchor ∷ after) in
    rw (pos-+ (length before) lookahead, pos-+ (length before + lookahead) 1)
      (elim (Bool-cases (leb lookback (length before) && leb lookahead (length after))) [
        | inl fits ↦
            let inside : ltb (length before) lookback
                  || leb (length (before ++ (anchor ∷ after)) + 0) (length before + lookahead + 0)
                ≡ false =
              rw size (ground arith) in
            rw (fits, inside)
              (ap ok (
                slice-around before after anchor lookback lookahead
                  (leb→le _ _ (and_left _ _ fits))))
        | inr short ↦
            let outside : ltb (length before) lookback
                  || leb (length (before ++ (anchor ∷ after)) + 0) (length before + lookahead + 0)
                ≡ true =
              rw size (ground arith) in
            rw (short, outside) refl
      ])

-- The two windows around a session, which are the same but for the exception: where the sessions of
-- the four weeks around the anchor are some sessions, the anchor, and later sessions, the window is
-- the last `lookback` of the sessions before, the anchor, and the first `lookahead` of those after it,
-- and the function raises exactly when a side has fewer.
pub expand_around :
    (schedule : Schedule) (anchor lookback lookahead : ℕ) (before after : List ℕ)
    → contains before anchor ≡ false
    → schedule (anchor - 14) (anchor + 14) ≡ before ++ (anchor ∷ after)
    → (expand_trading_day_window schedule anchor lookback (pos lookahead)
        ≡ around runtime_error before anchor after lookback lookahead)
      × (expand_nyse_window_for_scheduled_event schedule anchor lookback (pos lookahead)
          ≡ around event_calendar_fetch_error before anchor after lookback lookahead)
unfolding expand_trading_day_window expand_nyse_window_for_scheduled_event
expand_around schedule anchor lookback lookahead before after fresh sessions =
    rw (sessions, index-anchor before after anchor fresh)
      (
        window_at-around runtime_error before after anchor lookback lookahead,
        window_at-around event_calendar_fetch_error before after anchor lookback lookahead,
      )

-- An anchor that is not a session of the four weeks around it raises, whatever the bounds.
pub expand_absent :
    (schedule : Schedule) (anchor lookback : ℕ) (lookahead : ℤ)
    → contains (schedule (anchor - 14) (anchor + 14)) anchor ≡ false
    → (expand_trading_day_window schedule anchor lookback lookahead ≡ err runtime_error)
      × (expand_nyse_window_for_scheduled_event schedule anchor lookback lookahead
          ≡ err event_calendar_fetch_error)
unfolding expand_trading_day_window expand_nyse_window_for_scheduled_event window_at
expand_absent schedule anchor lookback lookahead absent =
    rw (index_absent (schedule (anchor - 14) (anchor + 14)) anchor absent) (refl, refl)
