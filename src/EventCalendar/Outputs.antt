-- ===== src/EventCalendar/Outputs.antt =====
-- The outputs of the sessions, by the events around them.
use regime_detection.Prelude.Int.{int_eq}
use regime_detection.Prelude.{
  same_if, ℕ, String, ◌≡◌, refl, sym, ap, ◌∙◌, inl, inr, Bool, true, false, ◌&&◌, ◌||◌, some, List,
  [], ◌∷◌, arith, Bool-cases, ◌==◌, nat_eq, string_eq, bool_eq, contains, any, All, get_elem?, ok,
  bind_ok, ok-injective,
}
use regime_detection.Prelude.Dict.{Dict, lookup, has_key}
use regime_detection.EventWindows.Labels.{
  EventLabelResolution, event_precedence, keep_labels, resolution_of,
}
use regime_detection.EventCalendar.{Almanac, EventRow, Masks, paint_rows}
use regime_detection.EventCalendar.Compute.{
  EventCalendarConfig, paint_expiries, paint_years, outputs_of, global_sessions, last_day,
  blank_masks, compute_event_calendar_outputs, years_after, months_after,
}
use regime_detection.EventWindows.Expiry.Anchor.{Ascending}
use regime_detection.EventCalendar.Gives.{is_given_by, EndsInside, rows-given}
use regime_detection.EventCalendar.Rows.{gives_label, paint_rows-Paints}
use regime_detection.EventCalendar.Others.{expiries-PaintsOnly, years-PaintsOnly}
use regime_detection.EventCalendar.Painted.{mask_has}

blank-mask_has : (days : List ℕ) (d : ℕ) (k : String) → mask_has (blank_masks days) d k ≡ false
unfolding mask_has
blank-mask_has [] d k = refl
blank-mask_has (day ∷ days) d k = rw (blank-mask_has days d k) (same_if (day == d) false)

blank-keys : (days : List ℕ) (d : ℕ) → has_key (blank_masks days) d ≡ contains days d
blank-keys [] d = refl
blank-keys (day ∷ days) d = rw (blank-keys days d) refl

-- The output of a session is the resolution of its mask.
output_of-mask :
    (masks : Masks) (d : ℕ)
    → has_key masks d ≡ true
    → (mask : List String) × (lookup (outputs_of masks) d
        ≡ some (resolution_of (keep_labels (contains mask) event_precedence)))
      × ((k : String) → contains mask k ≡ mask_has masks d k)
unfolding outputs_of mask_has
output_of-mask [] d h = cc
output_of-mask ((e, mask) ∷ masks) d h = elim (Bool-cases (e == d)) [
  | inl here ↦ rw here (mask, refl, λ k. refl)
  | inr there ↦ rw there (output_of-mask masks d (rw there at h))
]

from_blank : (a b x : Bool) → a ≡ false → b ≡ true → a || (b && x) ≡ x
from_blank a b x empty asked = ground arith

-- The labels of a session are those of the events whose window it is in. Where the outputs are
-- computed over ascending sessions of the exchange, and no event's own window ends before the session
-- before the first one, each of those sessions that was asked for has the resolution of a set of labels,
-- and a label other than the expiry week and the earnings season is in the set exactly when some event
-- gives it. The event is of a type that has the label in this version, a geopolitical one is approved,
-- and its date is a session; the index of the day is within the event's own window, or else that of the
-- label, counted from the index of the event; and the day is not before the publication.
pub compute_event_calendar_outputs-IsAny :
    (almanac : Almanac) (config : EventCalendarConfig) (first : ℕ) (days : List ℕ)
    (rows : List EventRow) (outputs : Dict ℕ EventLabelResolution) (i d : ℕ)
    → compute_event_calendar_outputs almanac config (first ∷ days) (some rows) ≡ ok outputs
    → contains (first ∷ days) d ≡ true
    → Ascending (global_sessions almanac first (last_day first days) rows)
    → get_elem? (global_sessions almanac first (last_day first days) rows) i ≡ some d
    → All (EndsInside (global_sessions almanac first (last_day first days) rows)) rows
    → (mask : List String) × (lookup outputs d
        ≡ some (resolution_of (keep_labels (contains mask) event_precedence)))
      × ((k : String)
          → ("expiry_week" == k) ≡ false
          → ("earnings_season" == k) ≡ false
          → contains mask k
            ≡ any
                (is_given_by config.allow_v2_event_labels
                  (global_sessions almanac first (last_day first days) rows)
                  i
                  d
                  k)
                rows)
unfolding compute_event_calendar_outputs
compute_event_calendar_outputs-IsAny almanac config first days rows outputs i d h inside ascending
      at ends =
    let sessions = global_sessions almanac first (last_day first days) rows in
    let months =
      (almanac.year_of first, almanac.month_of first)
      ∷ months_after almanac (almanac.year_of first, almanac.month_of first) days in
    let years = almanac.year_of first ∷ years_after almanac (almanac.year_of first) days in
    let offsets = config.window_trading_days in
    let allow = config.allow_v2_event_labels in
    let blank = blank_masks (first ∷ days) in
    let (events, h_events, h₁) = bind_ok (paint_rows allow sessions rows blank) _ h in
    let (expiries, h_expiries, h₂) =
      bind_ok (paint_expiries almanac sessions offsets months events) _ h₁ in
    let (seasons, h_seasons, h₃) =
      bind_ok (paint_years (first ∷ days) years config.earnings_seasons expiries) _ h₂ in
    let by_events = paint_rows-Paints allow sessions rows blank events h_events in
    let by_expiries =
      expiries-PaintsOnly almanac sessions offsets months events expiries h_expiries in
    let by_seasons =
      years-PaintsOnly (first ∷ days) years config.earnings_seasons expiries seasons h_seasons in
    let is_key = blank-keys (first ∷ days) d ∙ inside in
    let (mask, found, holds) =
      output_of-mask seasons d
        (by_seasons.sessions d ∙ by_expiries.sessions d ∙ by_events.sessions d ∙ is_key) in
    (
      mask,
      ap (λ o. lookup o d) (sym (ok-injective h₃)) ∙ found,
      λ k not_expiry not_season.
          holds k
          ∙ by_seasons.others d k not_season
          ∙ by_expiries.others d k not_expiry
          ∙ by_events.gained d k
          ∙ from_blank (mask_has blank d k) (has_key blank d)
              (any (gives_label allow sessions d k) rows) (blank-mask_has (first ∷ days) d k) is_key
          ∙ rows-given sessions i d ascending at allow k rows ends,
    )
