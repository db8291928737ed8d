-- ===== src/EventCalendar.antt =====
-- src/regime_detection/event_calendar.py: the event labels of sessions, painted over them event by
-- event, and the sessions just after an event window. Dates are day ordinals; their year and month
-- come from datetime and the sessions of the exchange from pandas_market_calendars. The sessions asked
-- for are distinct days in ascending order.
pub mod Compute
pub mod Passed
pub mod Index
mod Painted
mod Rows
mod Gives
mod Others
mod Outputs
mod Tests
use regime_detection.Prelude.Int.{ℤ, pos, negsuc, pos_part, ◌+ℤ◌, ◌-ℤ◌, ltb_ℤ, int_eq}
use regime_detection.Prelude.{
  ℕ, String, Bool, not, ◌&&◌, Option, none, some, List, [], ◌∷◌, ltb, if◌then◌else◌, ◌==◌, nat_eq,
  string_eq, bool_eq, is_some_of, length, Result, ok, ◌>>=◌, ◌>>◌,
}
use regime_detection.Prelude.Dict.{Dict, lookup, get}
use regime_detection.EventWindows.Expand.{index_of, slice}

pub record Almanac : Type 0 where
  pub year_of : ℕ → ℕ
  pub month_of : ℕ → ℕ
  pub sessions_between : ℕ → ℕ → List ℕ

-- A row of the normalized calendar.
pub record EventRow : Type 0 where
  pub date : ℕ
  pub event_type : String
  pub publication_date : ℕ
  pub approved_label : Option String
  pub window_days : Option (ℤ × ℤ)

abbrev pub type_to_label : Dict String String
type_to_label = ("FOMC", "fed_week") ∷ ("CPI", "cpi_week") ∷ ("NFP", "nfp_week") ∷ []

abbrev pub v2_type_to_label : Dict String String
v2_type_to_label =
    ("budget", "budget_week")
    ∷ ("election", "election_window")
    ∷ ("geopolitical_event", "geopolitical_event")
    ∷ ("global_rate_decision", "global_rate_decision")
    ∷ ("ECB_decision", "global_rate_decision")
    ∷ ("BOE_decision", "global_rate_decision")
    ∷ ("BOJ_decision", "global_rate_decision")
    ∷ []

abbrev pub windows : Dict String (ℤ × ℤ)
windows =
    ("fed_week", (negsuc 1, pos 2))
    ∷ ("cpi_week", (negsuc 0, pos 1))
    ∷ ("nfp_week", (negsuc 0, pos 1))
    ∷ ("budget_week", (pos 0, pos 0))
    ∷ ("election_window", (negsuc 4, pos 10))
    ∷ ("geopolitical_event", (pos 0, pos 0))
    ∷ ("global_rate_decision", (pos 0, pos 0))
    ∷ []

abbrev first_of : Option String → Option String → Option String
first_of (some label) other = some label
first_of none other = other

abbrev pub label_for_event_type : Bool → String → Option String
label_for_event_type allow_v2 event_type =
    first_of (lookup type_to_label event_type)
      (if allow_v2 then lookup v2_type_to_label event_type else none)

abbrev pub window_offsets_for_row : String → Option (ℤ × ℤ) → Result (ℤ × ℤ)
window_offsets_for_row label (some offsets) = ok offsets
window_offsets_for_row label none = get windows label

-- The mask of each session: the labels whose bit is set. A label has one bit.
abbrev pub Masks : Type 0
Masks = Dict ℕ (List String)

-- `match_masks[session_pos[day]] |= label_bits[label]`, where the day is one of the sessions.
unfoldable pub paint_day : String → ℕ → Masks → Masks
paint_day label day [] = []
paint_day label day ((d, mask) ∷ masks) =
    let rest = paint_day label day masks in
    if d == day then (d, label ∷ mask) ∷ rest else (d, mask) ∷ rest

-- The days of a window, but for those before the publication.
unfoldable pub paint_days : String → ℕ → List ℕ → Masks → Masks
unfolding paint_day
paint_days label publication [] masks = masks
paint_days label publication (day ∷ days) masks =
    paint_days label publication days
      (if ltb day publication then masks else paint_day label day masks)

abbrev pub min_ℤ : ℤ → ℤ → ℤ
min_ℤ a b = if ltb_ℤ b a then b else a

-- `sessions[max(0, idx + start) : min(len(sessions) - 1, idx + end) + 1]`
unfoldable pub window_slice : List ℕ → ℕ → ℤ × ℤ → List ℕ
unfolding ◌+ℤ◌ ◌-ℤ◌
window_slice sessions idx (start_offset, end_offset) =
    slice sessions (pos_part (pos idx +ℤ start_offset))
      (min_ℤ (pos (length sessions) -ℤ pos 1) (pos idx +ℤ end_offset) +ℤ pos 1)

unfoldable pub paint_at : List ℕ → EventRow → String → Masks → Option ℕ → Result Masks
unfolding paint_days window_slice
paint_at sessions row label masks none = ok masks
paint_at sessions row label masks (some event_idx) = do
  offsets ← window_offsets_for_row label row.window_days
  ok (paint_days label row.publication_date (window_slice sessions event_idx offsets) masks)

-- A geopolitical event counts only where it was approved.
abbrev pub is_unapproved : EventRow → String → Bool
is_unapproved row label =
    label == "geopolitical_event" && not (is_some_of row.approved_label "geopolitical_event")

unfoldable pub paint_label : List ℕ → EventRow → Masks → Option String → Result Masks
unfolding paint_at
paint_label sessions row masks none = ok masks
paint_label sessions row masks (some label) =
    if is_unapproved row label
    then ok masks
    else paint_at sessions row label masks (index_of sessions row.date)

unfoldable pub paint_rows : Bool → List ℕ → List EventRow → Masks → Result Masks
unfolding paint_label
paint_rows allow_v2 sessions [] masks = ok masks
paint_rows allow_v2 sessions (row ∷ rows) masks = do
  painted ← paint_label sessions row masks (label_for_event_type allow_v2 row.event_type)
  paint_rows allow_v2 sessions rows painted
