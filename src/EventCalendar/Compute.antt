-- ===== src/EventCalendar/Compute.antt =====
-- `compute_event_calendar_outputs` of src/regime_detection/event_calendar.py: the expiry weeks and
-- earnings seasons, which are painted after the events, and the labels of all sessions.
use regime_detection.Prelude.Int.{ℤ, int_eq}
use regime_detection.Prelude.{
  ℕ, zero, suc, ◌+◌, ◌-◌, ◌%◌, min, max, String, Bool, ◌&&◌, Option, none, some, List, [], ◌∷◌, ltb,
  leb, if◌then◌else◌, ◌==◌, nat_eq, string_eq, bool_eq, contains, get_elem?, value_error, Result,
  ok, err, ◌>>=◌,
}
use regime_detection.Prelude.Dict.{Dict, get}
use regime_detection.EventWindows.Dates.{to_ordinal, weekday, make_date, monday}
use regime_detection.EventWindows.Expiry.{third_friday}
use regime_detection.EventWindows.Labels.{
  EventLabelResolution, event_precedence, keep_labels, resolution_of,
}
use regime_detection.EventCalendar.{Almanac, EventRow, Masks, paint_rows, paint_days, window_slice}

-- `bisect_right` and `bisect_left` on ascending days.
abbrev pub bisect_right : List ℕ → ℕ → ℕ
bisect_right [] day = 0
bisect_right (d ∷ ds) day = let rest = bisect_right ds day in if leb d day then suc rest else 0

abbrev pub bisect_left : List ℕ → ℕ → ℕ
bisect_left [] day = 0
bisect_left (d ∷ ds) day = let rest = bisect_left ds day in if ltb d day then suc rest else 0

-- The expiry week around a session, if it is of the month.
unfoldable pub paint_expiry_on : Almanac → List ℕ → ℤ × ℤ → ℕ → Masks → ℕ → Option ℕ → Masks
unfolding paint_days window_slice
paint_expiry_on almanac sessions offsets month masks expiry_idx none = masks
paint_expiry_on almanac sessions offsets month masks expiry_idx (some day) =
    if almanac.month_of day == month
    then paint_days "expiry_week" 0 (window_slice sessions expiry_idx offsets) masks
    else masks

-- The session before a count of sessions, where there is one.
unfoldable pub paint_expiry_at : Almanac → List ℕ → ℤ × ℤ → ℕ → Masks → ℕ → Masks
unfolding paint_expiry_on
paint_expiry_at almanac sessions offsets month masks zero = masks
paint_expiry_at almanac sessions offsets month masks (suc expiry_idx) =
    paint_expiry_on almanac sessions offsets month masks expiry_idx (get_elem? sessions expiry_idx)

-- The months of the sessions, each once.
unfoldable pub paint_expiries : Almanac → List ℕ → ℤ × ℤ → List (ℕ × ℕ) → Masks → Result Masks
unfolding paint_expiry_at to_ordinal third_friday
paint_expiries almanac sessions offsets [] masks = ok masks
paint_expiries almanac sessions offsets ((year, month) ∷ months) masks = do
  friday ← third_friday year month
  let count = bisect_right sessions (to_ordinal friday)
  paint_expiries almanac sessions offsets months
      (paint_expiry_at almanac sessions offsets month masks count)

pub record EarningsSeasonConfig : Type 0 where
  pub start_rule : String
  pub end_offset_days : ℕ

abbrev pub month_lookup : Dict String ℕ
month_lookup =
    ("second_monday_of_january", 1)
    ∷ ("second_monday_of_april", 4)
    ∷ ("second_monday_of_july", 7)
    ∷ ("second_monday_of_october", 10)
    ∷ []

unfoldable pub second_weekday_of_month : ℕ → ℕ → ℕ → Result ℕ
unfolding to_ordinal weekday make_date
second_weekday_of_month year month day_of_week = do
  first ← make_date year month 1
  let offset = (day_of_week + 7 - weekday (to_ordinal first)) % 7
  ok (to_ordinal first + offset + 7)

-- `match_masks[idx] |= bit` for the indexes of a range.
unfoldable pub paint_range : String → ℕ → ℕ → Masks → Masks
paint_range label start stop [] = []
paint_range label start stop ((d, mask) ∷ masks) =
    let rest = paint_range label (start - 1) (stop - 1) masks in
    if start == 0 && ltb 0 stop then (d, label ∷ mask) ∷ rest else (d, mask) ∷ rest

unfoldable pub paint_seasons : List ℕ → ℕ → List EarningsSeasonConfig → Masks → Result Masks
unfolding second_weekday_of_month paint_range
paint_seasons session_list year [] masks = ok masks
paint_seasons session_list year (season ∷ seasons) masks = do
  month ← get month_lookup season.start_rule
  start ← second_weekday_of_month year month monday
  let start_idx = bisect_left session_list start
  let end_idx = bisect_right session_list (start + season.end_offset_days)
  paint_seasons session_list year seasons (paint_range "earnings_season" start_idx end_idx masks)

unfoldable pub paint_years : List ℕ → List ℕ → List EarningsSeasonConfig → Masks → Result Masks
unfolding paint_seasons
paint_years session_list [] seasons masks = ok masks
paint_years session_list (year ∷ years) seasons masks = do
  painted ← paint_seasons session_list year seasons masks
  paint_years session_list years seasons painted

pub record EventCalendarConfig : Type 0 where
  pub allow_v2_event_labels : Bool
  pub window_trading_days : ℤ × ℤ
  pub earnings_seasons : List EarningsSeasonConfig

-- The outputs, without their constant evidence.
unfoldable pub outputs_of : Masks → Dict ℕ EventLabelResolution
outputs_of [] = []
outputs_of ((day, mask) ∷ masks) =
    (day, resolution_of (keep_labels (contains mask) event_precedence)) ∷ outputs_of masks

-- `date(day.year, 1, 1)` and `date(day.year, 12, 31)`
unfoldable pub year_start : Almanac → ℕ → ℕ
unfolding to_ordinal
year_start almanac day = to_ordinal (record { year = almanac.year_of day; month = 1; day = 1 })

unfoldable pub year_end : Almanac → ℕ → ℕ
unfolding to_ordinal
year_end almanac day = to_ordinal (record { year = almanac.year_of day; month = 12; day = 31 })

abbrev pub min_event_day : ℕ → List EventRow → ℕ
min_event_day best [] = best
min_event_day best (row ∷ rows) = min_event_day (min best (min row.publication_date row.date)) rows

abbrev pub max_event_day : ℕ → List EventRow → ℕ
max_event_day best [] = best
max_event_day best (row ∷ rows) = max_event_day (max best (max row.publication_date row.date)) rows

-- The sessions of all years that the sessions and the events span.
unfoldable pub global_sessions : Almanac → ℕ → ℕ → List EventRow → List ℕ
unfolding year_start year_end
global_sessions almanac first last [] =
    almanac.sessions_between (year_start almanac first) (year_end almanac last)
global_sessions almanac first last (row ∷ rows) =
    let min_day = min_event_day (min row.publication_date row.date) rows in
    let max_day = max_event_day (max row.publication_date row.date) rows in
    almanac.sessions_between (min (year_start almanac first) (year_start almanac min_day))
      (max (year_end almanac last) (year_end almanac max_day))

abbrev pub last_day : ℕ → List ℕ → ℕ
last_day day [] = day
last_day day (d ∷ ds) = last_day d ds

abbrev pub blank_masks : List ℕ → Masks
blank_masks [] = []
blank_masks (day ∷ days) = (day, []) ∷ blank_masks days

-- The years and months of the sessions in ascending order, each once: the sessions ascend.
unfoldable pub years_after : Almanac → ℕ → List ℕ → List ℕ
years_after almanac year [] = []
years_after almanac year (day ∷ days) =
    let rest = years_after almanac (almanac.year_of day) days in
    if almanac.year_of day == year then rest else almanac.year_of day ∷ rest

unfoldable pub months_after : Almanac → ℕ × ℕ → List ℕ → List (ℕ × ℕ)
months_after almanac (year, month) [] = []
months_after almanac (year, month) (day ∷ days) =
    let rest = months_after almanac (almanac.year_of day, almanac.month_of day) days in
    if almanac.year_of day == year && almanac.month_of day == month
    then rest
    else (almanac.year_of day, almanac.month_of day) ∷ rest

unfoldable pub compute_event_calendar_outputs :
    Almanac
    → EventCalendarConfig
    → List ℕ
    → Option (List EventRow)
    → Result (Dict ℕ EventLabelResolution)
unfolding paint_rows paint_expiries paint_years outputs_of global_sessions years_after months_after
compute_event_calendar_outputs almanac config [] calendar = ok []
compute_event_calendar_outputs almanac config (first ∷ days) none = err value_error
compute_event_calendar_outputs almanac config (first ∷ days) (some rows) = do
  let sessions = global_sessions almanac first (last_day first days) rows
  events ← paint_rows config.allow_v2_event_labels sessions rows (blank_masks (first ∷ days))
  expiries ←
      paint_expiries almanac sessions config.window_trading_days
        ((almanac.year_of first, almanac.month_of first)
          ∷ months_after almanac (almanac.year_of first, almanac.month_of first) days)
        events
  seasons ←
      paint_years (first ∷ days)
        (almanac.year_of first ∷ years_after almanac (almanac.year_of first) days)
        config.earnings_seasons expiries
  ok (outputs_of seasons)
