-- ===== src/EventCalendar/Index.antt =====
-- Windows of sessions by the index of a session (src/regime_detection/event_calendar.py).
use regime_detection.Prelude.Int.{ℤ, pos, negsuc, pos_part, ◌+ℤ◌, ◌-ℤ◌, ◌≤ℤ◌, leb_ℤ, int_eq}
use regime_detection.Prelude.{
  ℕ, zero, suc, ◌+◌, ◌-◌, ◌<◌, ◌≡◌, ◌∙◌, ◌&&◌, some, List, arith, ltb, leb, if◌then◌else◌, nat_eq,
  string_eq, bool_eq, contains, length, get_elem?,
}
use regime_detection.EventWindows.Expand.{slice_bound}
use regime_detection.EventCalendar.{min_ℤ, window_slice}
use regime_detection.EventWindows.Expand.Slices.{contains-slice, elem-lt-length}
use regime_detection.EventWindows.Expiry.Anchor.{Ascending}

-- The bound of the slice where a window ends at an index, and where it ends before the first.
stop_within :
    (n b : ℕ) {i : ℕ}
    → i < n
    → slice_bound n (min_ℤ (pos n -ℤ pos 1) (pos b) +ℤ pos 1) ≡ (if leb n (suc b) then n else suc b)
unfolding ◌-ℤ◌ ◌+ℤ◌
stop_within n b inside = ground arith

stop_before :
    (n : ℕ) {i : ℕ} → i < n → slice_bound n (min_ℤ (pos n -ℤ pos 1) (negsuc 0) +ℤ pos 1) ≡ 0
unfolding ◌-ℤ◌ ◌+ℤ◌
stop_before n inside = ground arith

bounds_same :
    (n i : ℕ) (x y : ℤ)
    → i < n
    → negsuc 0 ≤ℤ y
    → leb (pos_part x) i
        && ltb i (pos_part x + (slice_bound n (min_ℤ (pos n -ℤ pos 1) y +ℤ pos 1) - pos_part x))
      ≡ leb_ℤ x (pos i) && leb_ℤ (pos i) y
unfolding ◌-ℤ◌ ◌+ℤ◌
bounds_same n i x (negsuc zero) inside ends = rw (stop_before n inside) (ground arith)
bounds_same n i x (negsuc (suc k)) inside ends = absurd (omega arith)
bounds_same n i (pos a) (pos b) inside ends = rw (stop_within n b inside) (ground arith)
bounds_same n i (negsuc a) (pos b) inside ends = rw (stop_within n b inside) (ground arith)

-- A window that does not end before the first session holds a session exactly when the session's index
-- is between the bounds of the window, counted from the index of the event.
pub window_slice-IsBetween :
    (sessions : List ℕ) (event_idx i d : ℕ) (start_offset end_offset : ℤ)
    → Ascending sessions
    → get_elem? sessions i ≡ some d
    → negsuc 0 ≤ℤ pos event_idx +ℤ end_offset
    → contains (window_slice sessions event_idx (start_offset, end_offset)) d
      ≡ leb_ℤ (pos event_idx +ℤ start_offset) (pos i) && leb_ℤ (pos i) (pos event_idx +ℤ end_offset)
unfolding window_slice
window_slice-IsBetween sessions event_idx i d start_offset end_offset ascending at ends =
    contains-slice sessions _ _ i d ascending at
    ∙ bounds_same (length sessions) i (pos event_idx +ℤ start_offset) (pos event_idx +ℤ end_offset)
        (elem-lt-length sessions i d at) ends
