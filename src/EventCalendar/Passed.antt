-- ===== src/EventCalendar/Passed.antt =====
-- `compute_event_window_just_passed` of src/regime_detection/event_calendar.py: the sessions just after
-- the window of an event.
mod Window
mod Tests
use regime_detection.Prelude.Int.{ℤ, pos, negsuc, ◌+ℤ◌, int_eq}
use regime_detection.Prelude.{
  ℕ, zero, suc, ◌+◌, ◌-◌, min, max, String, Bool, true, false, Option, none, some, List, [], ◌∷◌,
  ltb, leb, if◌then◌else◌, ◌==◌, nat_eq, string_eq, bool_eq, length, drop, value_error, Result, ok,
  err,
}
use regime_detection.Prelude.Dict.{Dict, lookup}
use regime_detection.EventWindows.Expand.{index_of}
use regime_detection.EventCalendar.{Almanac, EventRow, type_to_label, windows}
use regime_detection.EventCalendar.Compute.{min_event_day, max_event_day, last_day}

abbrev pub session_padding_days : ℕ
session_padding_days = 40

-- The flag of each session.
abbrev pub Flags : Type 0
Flags = Dict ℕ Bool

-- `result.iloc[session_pos[day]] = True`, where the day is one of the sessions.
unfoldable pub raise_flag : ℕ → Flags → Flags
raise_flag day [] = []
raise_flag day ((d, flag) ∷ flags) =
    let rest = raise_flag day flags in if d == day then (d, true) ∷ rest else (d, flag) ∷ rest

-- The loop over the sessions after a window's end; it stops where the sessions do.
unfoldable pub flag_trailing : ℕ → ℕ → List ℕ → Flags → Flags
unfolding raise_flag
flag_trailing publication zero days flags = flags
flag_trailing publication (suc trailing) [] flags = flags
flag_trailing publication (suc trailing) (day ∷ days) flags =
    flag_trailing publication trailing days
      (if ltb day publication then flags else raise_flag day flags)

-- The end of an event's window by its label, where the label has one.
abbrev pub end_offset_of : Option String → Option ℤ
end_offset_of none = none
end_offset_of (some label) = elim (lookup windows label) [
  | none ↦ none
  | some offsets ↦ some (offsets.1)
]

-- The flags of an event whose window ends at an index.
unfoldable pub flag_after : List ℕ → ℕ → ℕ → ℤ → Flags → Flags
unfolding flag_trailing
flag_after sessions trailing publication (negsuc n) flags = flags
flag_after sessions trailing publication (pos window_end_idx) flags =
    if leb (length sessions) window_end_idx
    then flags
    else flag_trailing publication trailing (drop (suc window_end_idx) sessions) flags

unfoldable pub flag_row : List ℕ → ℕ → EventRow → Option ℤ → Option ℕ → Flags → Flags
unfolding flag_after ◌+ℤ◌
flag_row sessions trailing row (some end_offset) (some event_idx) flags =
    flag_after sessions trailing row.publication_date (pos event_idx +ℤ end_offset) flags
flag_row sessions trailing row _ _ flags = flags

unfoldable pub flag_rows : List ℕ → ℕ → List EventRow → Flags → Flags
unfolding flag_row
flag_rows sessions trailing [] flags = flags
flag_rows sessions trailing (row ∷ rows) flags = flag_rows sessions trailing rows (
    flag_row sessions trailing row (end_offset_of (lookup type_to_label row.event_type))
      (index_of sessions row.date) flags)

abbrev pub blank_flags : List ℕ → Flags
blank_flags [] = []
blank_flags (day ∷ days) = (day, false) ∷ blank_flags days

-- The sessions around the asked ones and the events.
abbrev pub padded_sessions : Almanac → ℕ → ℕ → EventRow → List EventRow → List ℕ
padded_sessions almanac first last row rows =
    let min_event = min_event_day (min row.publication_date row.date) rows in
    let max_event = max_event_day (max row.publication_date row.date) rows in
    almanac.sessions_between (min first min_event - session_padding_days)
      (max last max_event + session_padding_days)

-- No calendar, or one without rows, is an error unless no session is asked for.
unfoldable pub compute_event_window_just_passed :
    Almanac → Option (List EventRow) → List ℕ → ℕ → Result Flags
unfolding flag_rows
compute_event_window_just_passed almanac calendar [] trailing = ok []
compute_event_window_just_passed almanac (some (row ∷ rows)) (first ∷ days) trailing = ok (
    flag_rows (padded_sessions almanac first (last_day first days) row rows) trailing (row ∷ rows)
      (blank_flags (first ∷ days)))
compute_event_window_just_passed almanac _ (first ∷ days) trailing = err value_error
