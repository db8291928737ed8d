-- ===== src/EventCalendar/Passed/Window.antt =====
-- A session is flagged exactly when an event window closed shortly before it.
use regime_detection.Prelude.Int.{ℤ, pos, negsuc, ◌+ℤ◌, int_eq}
use regime_detection.Prelude.{
  ℕ, zero, suc, ◌+◌, ◌≡◌, refl, sym, ap, ◌∙◌, inl, inr, Bool, true, false, ◌&&◌, ◌||◌, Option, none,
  some, List, [], ◌∷◌, arith, ltb, leb, Bool-cases, ◌==◌, nat_eq, string_eq, bool_eq, contains,
  length, get_elem?, take, drop, any, ok, ok-injective,
}
use regime_detection.Prelude.Dict.{lookup}
use regime_detection.EventWindows.Expand.{index_of}
use regime_detection.EventWindows.Expiry.Anchor.{Ascending}
use regime_detection.EventCalendar.{Almanac, EventRow, type_to_label}
use regime_detection.EventCalendar.Compute.{last_day}
use regime_detection.EventWindows.Expand.Slices.{contains-slice, elem-lt-length}
use regime_detection.EventCalendar.Passed.{
  Flags, raise_flag, flag_trailing, flag_after, flag_row, flag_rows, end_offset_of, blank_flags,
  padded_sessions, compute_event_window_just_passed,
}

or_false : (a : Bool) → a ≡ a || false
or_false a = ground arith

true_or : (a : Bool) → true ≡ a || true
true_or a = ground arith

or_right : (c a b : Bool) → (c || a) || b ≡ c || (a || b)
or_right c a b = ground arith

early_flag :
    (day publication d : ℕ) (c : Bool)
    → ltb day publication ≡ true
    → (c && leb publication d) ≡ ((day == d || c) && leb publication d)
early_flag day publication d c early = ground arith

later_flag :
    (day publication d : ℕ) (c : Bool)
    → ltb day publication ≡ false
    → (day == d) || (c && leb publication d) ≡ ((day == d || c) && leb publication d)
later_flag day publication d c published = ground arith

abbrev or_flag : Option Bool → Bool → Option Bool
or_flag none b = none
or_flag (some a) b = some (a || b)

or_flag-false : (o : Option Bool) → o ≡ or_flag o false
or_flag-false none = refl
or_flag-false (some a) = ap some (or_false a)

or_flag-twice : (o : Option Bool) (a b : Bool) → or_flag (or_flag o a) b ≡ or_flag o (a || b)
or_flag-twice none a b = refl
or_flag-twice (some c) a b = ap some (or_right c a b)

raise-flag :
    (day : ℕ) (flags : Flags) (d : ℕ)
    → lookup (raise_flag day flags) d ≡ or_flag (lookup flags d) (day == d)
unfolding raise_flag
raise-flag day [] d = refl
raise-flag day ((e, flag) ∷ flags) d = elim (Bool-cases (e == day)) [
  | inl here ↦ elim (Bool-cases (e == d)) [
    | inl found ↦
        let same : (day == d) ≡ true = ground arith in
        rw (here, found, same) (ap some (true_or flag))
    | inr other ↦ rw (here, other) (raise-flag day flags d)
  ]
  | inr there ↦ elim (Bool-cases (e == d)) [
    | inl found ↦
        let same : (day == d) ≡ false = ground arith in
        rw (there, found, same) (ap some (or_false flag))
    | inr other ↦ rw (there, other) (raise-flag day flags d)
  ]
]

trailing-flag :
    (publication trailing : ℕ) (days : List ℕ) (flags : Flags) (d : ℕ)
    → lookup (flag_trailing publication trailing days flags) d
      ≡ or_flag (lookup flags d) (contains (take trailing days) d && leb publication d)
unfolding flag_trailing
trailing-flag publication zero days flags d = or_flag-false (lookup flags d)
trailing-flag publication (suc trailing) [] flags d = or_flag-false (lookup flags d)
trailing-flag publication (suc trailing) (day ∷ days) flags d =
    elim (Bool-cases (ltb day publication)) [
      | inl early ↦ rw early (
          trailing-flag publication trailing days flags d
          ∙ ap (or_flag (lookup flags d))
              (early_flag day publication d (contains (take trailing days) d) early))
      | inr published ↦ rw published (
          trailing-flag publication trailing days (raise_flag day flags) d
          ∙ rw (raise-flag day flags d) (
              or_flag-twice (lookup flags d) (day == d)
                (contains (take trailing days) d && leb publication d)
              ∙ ap (or_flag (lookup flags d))
                  (later_flag day publication d (contains (take trailing days) d) published)))
    ]

-- The index at which an event's window closes.
abbrev pub window_end : Option ℤ → Option ℕ → Option ℤ
window_end (some end_offset) (some event_idx) = some (pos event_idx +ℤ end_offset)
window_end _ _ = none

abbrev pub closed_before : ℕ → ℕ → Option ℤ → Bool
closed_before trailing i (some (pos end)) = ltb end i && leb i (end + trailing)
closed_before trailing i _ = false

-- Whether the window of an event of a version 1 type closed on one of the `trailing` sessions before the
-- one at an index, the event being published by that day.
abbrev pub just_passed : List ℕ → ℕ → ℕ → ℕ → EventRow → Bool
just_passed sessions trailing i d row =
    closed_before trailing i (
      window_end (end_offset_of (lookup type_to_label row.event_type)) (index_of sessions row.date))
    && leb row.publication_date d

after-flag :
    (sessions : List ℕ) (trailing publication i d : ℕ) (end : ℤ) (flags : Flags)
    → Ascending sessions
    → get_elem? sessions i ≡ some d
    → lookup (flag_after sessions trailing publication end flags) d
      ≡ or_flag (lookup flags d) (closed_before trailing i (some end) && leb publication d)
unfolding flag_after
after-flag sessions trailing publication i d (negsuc n) flags ascending at =
    or_flag-false (lookup flags d)
after-flag sessions trailing publication i d (pos end) flags ascending at =
    elim (Bool-cases (leb (length sessions) end)) [
      | inl past ↦
          let inside = elem-lt-length sessions i d at in
          let before_end : (ltb end i) ≡ false = ground arith in
          rw (past, before_end) (or_flag-false (lookup flags d))
      | inr within ↦ rw within (
          trailing-flag publication trailing (drop (suc end) sessions) flags d
          ∙ ap (λ b. or_flag (lookup flags d) (b && leb publication d))
              (contains-slice sessions (suc end) trailing i d ascending at ∙ ground arith))
    ]

row-flag :
    (sessions : List ℕ) (trailing i d : ℕ) (row : EventRow) (end_offset : Option ℤ) (idx : Option ℕ)
    (flags : Flags)
    → Ascending sessions
    → get_elem? sessions i ≡ some d
    → lookup (flag_row sessions trailing row end_offset idx flags) d
      ≡ or_flag
          (lookup flags d)
          (closed_before trailing i (window_end end_offset idx) && leb row.publication_date d)
unfolding flag_row
row-flag sessions trailing i d row none idx flags ascending at = or_flag-false (lookup flags d)
row-flag sessions trailing i d row (some offset) none flags ascending at =
    or_flag-false (lookup flags d)
row-flag sessions trailing i d row (some offset) (some event_idx) flags ascending at =
    after-flag sessions trailing row.publication_date i d (pos event_idx +ℤ offset) flags ascending
      at

rows-flag :
    (sessions : List ℕ) (trailing i d : ℕ) (rows : List EventRow) (flags : Flags)
    → Ascending sessions
    → get_elem? sessions i ≡ some d
    → lookup (flag_rows sessions trailing rows flags) d
      ≡ or_flag (lookup flags d) (any (just_passed sessions trailing i d) rows)
unfolding flag_rows
rows-flag sessions trailing i d [] flags ascending at = or_flag-false (lookup flags d)
rows-flag sessions trailing i d (row ∷ rows) flags ascending at =
    let offset = end_offset_of (lookup type_to_label row.event_type) in
    let idx = index_of sessions row.date in
    rows-flag sessions trailing i d rows (flag_row sessions trailing row offset idx flags) ascending
      at
    ∙ rw (row-flag sessions trailing i d row offset idx flags ascending at) (
        or_flag-twice (lookup flags d) (just_passed sessions trailing i d row)
          (any (just_passed sessions trailing i d) rows))

blank-flag :
    (days : List ℕ) (d : ℕ) → contains days d ≡ true → lookup (blank_flags days) d ≡ some false
blank-flag [] d h = cc
blank-flag (day ∷ days) d h = elim (Bool-cases (day == d)) [
  | inl here ↦ rw here refl
  | inr there ↦ rw there (blank-flag days d (rw there at h))
]

-- A session is flagged exactly when an event window closed shortly before it: for a session of an
-- ascending exchange calendar, at an index of the padded sessions, the flag says whether there is an
-- event of type FOMC, CPI or NFP, on a session and published by then, whose window of its type closes
-- at an index that is at least one and at most `trailing` sessions earlier.
pub compute_event_window_just_passed-IsAny :
    (almanac : Almanac) (row : EventRow) (rows : List EventRow) (first : ℕ) (days : List ℕ)
    (trailing i d : ℕ) (flags : Flags)
    → compute_event_window_just_passed almanac (some (row ∷ rows)) (first ∷ days) trailing
      ≡ ok flags
    → contains (first ∷ days) d ≡ true
    → Ascending (padded_sessions almanac first (last_day first days) row rows)
    → get_elem? (padded_sessions almanac first (last_day first days) row rows) i ≡ some d
    → lookup flags d
      ≡ some (
          any
            (just_passed
              (padded_sessions almanac first (last_day first days) row rows)
              trailing
              i
              d)
            (row ∷ rows))
unfolding compute_event_window_just_passed
compute_event_window_just_passed-IsAny almanac row rows first days trailing i d flags h asked
      ascending at =
    let sessions = padded_sessions almanac first (last_day first days) row rows in
    ap (λ f. lookup f d) (sym (ok-injective h))
    ∙ rows-flag sessions trailing i d (row ∷ rows) (blank_flags (first ∷ days)) ascending at
    ∙ ap (λ o. or_flag o (any (just_passed sessions trailing i d) (row ∷ rows)))
        (blank-flag (first ∷ days) d asked)
