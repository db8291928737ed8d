-- ===== src/EventCalendar/Others.antt =====
-- The expiry weeks and the earnings seasons leave the labels of events alone.
use regime_detection.Prelude.Int.{ℤ, int_eq}
use regime_detection.Prelude.{
  ℕ, zero, suc, ◌+◌, ◌-◌, String, ◌≡◌, refl, ◌∙◌, inl, inr, Bool, false, ◌&&◌, ◌||◌, Option, none,
  some, List, [], ◌∷◌, arith, ltb, leb, Bool-cases, ◌==◌, nat_eq, string_eq, bool_eq, contains,
  get_elem?, ok, bind_ok, ok-injective,
}
use regime_detection.Prelude.Dict.{get, has_key}
use regime_detection.EventWindows.Dates.{to_ordinal}
use regime_detection.EventWindows.Expiry.{third_friday}
use regime_detection.EventCalendar.{Almanac, Masks, paint_days, window_slice}
use regime_detection.EventCalendar.Compute.{
  EarningsSeasonConfig, month_lookup, paint_expiry_on, paint_expiry_at, paint_expiries, paint_range,
  second_weekday_of_month, paint_seasons, paint_years, bisect_left, bisect_right,
}
use regime_detection.EventCalendar.Painted.{mask_has, paint_days-Paints}

-- Painting that leaves every other label alone.
pub record PaintsOnly (label : String) (before after : Masks) : Type 0 where
  pub sessions : (d : ℕ) → has_key after d ≡ has_key before d
  pub others :
      (d : ℕ) (k : String) → (label == k) ≡ false → mask_has after d k ≡ mask_has before d k

only_none : (label : String) (masks : Masks) → PaintsOnly label masks masks
only_none label masks = record { sessions = λ d. refl; others = λ d k other. refl }

only_both :
    (label : String) (a b c : Masks)
    → PaintsOnly label a b
    → PaintsOnly label b c
    → PaintsOnly label a c
only_both label a b c first second = record {
  sessions = λ d. second.sessions d ∙ first.sessions d;
  others = λ d k other. second.others d k other ∙ first.others d k other;
}

nothing_gained : (a b c e : Bool) → a || (b && (c && (e && false))) ≡ a
nothing_gained a b c e = ground arith

paint_days-PaintsOnly :
    (label : String) (publication : ℕ) (days : List ℕ) (masks : Masks)
    → PaintsOnly label masks (paint_days label publication days masks)
paint_days-PaintsOnly label publication days masks =
    let painted = paint_days-Paints label publication days masks in
    record {
      sessions = painted.sessions;
      others = λ d k other.
          painted.gained d k
          ∙ rw other (
              nothing_gained (mask_has masks d k) (has_key masks d) (contains days d)
                (leb publication d));
    }

expiry_on-PaintsOnly :
    (almanac : Almanac) (sessions : List ℕ) (offsets : ℤ × ℤ) (month : ℕ) (masks : Masks) (idx : ℕ)
    (day : Option ℕ)
    → PaintsOnly "expiry_week" masks (paint_expiry_on almanac sessions offsets month masks idx day)
unfolding paint_expiry_on
expiry_on-PaintsOnly almanac sessions offsets month masks idx none = only_none "expiry_week" masks
expiry_on-PaintsOnly almanac sessions offsets month masks idx (some day) =
    elim (Bool-cases (almanac.month_of day == month)) [
      | inl in_month ↦
          rw in_month
            (paint_days-PaintsOnly "expiry_week" 0 (window_slice sessions idx offsets) masks)
      | inr other ↦ rw other (only_none "expiry_week" masks)
    ]

expiry_at-PaintsOnly :
    (almanac : Almanac) (sessions : List ℕ) (offsets : ℤ × ℤ) (month : ℕ) (masks : Masks)
    (count : ℕ)
    → PaintsOnly "expiry_week" masks (paint_expiry_at almanac sessions offsets month masks count)
unfolding paint_expiry_at
expiry_at-PaintsOnly almanac sessions offsets month masks zero = only_none "expiry_week" masks
expiry_at-PaintsOnly almanac sessions offsets month masks (suc idx) =
    expiry_on-PaintsOnly almanac sessions offsets month masks idx (get_elem? sessions idx)

pub expiries-PaintsOnly :
    (almanac : Almanac) (sessions : List ℕ) (offsets : ℤ × ℤ) (months : List (ℕ × ℕ))
    (masks painted : Masks)
    → paint_expiries almanac sessions offsets months masks ≡ ok painted
    → PaintsOnly "expiry_week" masks painted
unfolding paint_expiries
expiries-PaintsOnly almanac sessions offsets [] masks painted h =
    rw (← ok-injective h) (only_none "expiry_week" masks)
expiries-PaintsOnly almanac sessions offsets ((year, month) ∷ months) masks painted h =
    let (friday, found, rest) = bind_ok (third_friday year month) _ h in
    let count = bisect_right sessions (to_ordinal friday) in
    let middle = paint_expiry_at almanac sessions offsets month masks count in
    only_both "expiry_week" masks middle painted
      (expiry_at-PaintsOnly almanac sessions offsets month masks count)
      (expiries-PaintsOnly almanac sessions offsets months middle painted rest)

range-PaintsOnly :
    (label : String) (start stop : ℕ) (masks : Masks)
    → PaintsOnly label masks (paint_range label start stop masks)
unfolding paint_range mask_has
range-PaintsOnly label start stop [] = only_none label []
range-PaintsOnly label start stop ((e, mask) ∷ masks) =
    let rest = range-PaintsOnly label (start - 1) (stop - 1) masks in
    elim (Bool-cases (start == 0 && ltb 0 stop)) [
      | inl inside ↦ rw inside (record {
        sessions = λ d. rw (rest.sessions d) refl;
        others = λ d k other. rw (rest.others d k other, other) refl;
      })
      | inr outside ↦ rw outside (record {
        sessions = λ d. rw (rest.sessions d) refl;
        others = λ d k other. rw (rest.others d k other) refl;
      })
    ]

seasons-PaintsOnly :
    (session_list : List ℕ) (year : ℕ) (seasons : List EarningsSeasonConfig) (masks painted : Masks)
    → paint_seasons session_list year seasons masks ≡ ok painted
    → PaintsOnly "earnings_season" masks painted
unfolding paint_seasons
seasons-PaintsOnly session_list year [] masks painted h =
    rw (← ok-injective h) (only_none "earnings_season" masks)
seasons-PaintsOnly session_list year (season ∷ seasons) masks painted h =
    let (month, known, h₁) = bind_ok (get month_lookup season.start_rule) _ h in
    let (start, dated, rest) = bind_ok (second_weekday_of_month year month 0) _ h₁ in
    let middle =
      paint_range "earnings_season" (bisect_left session_list start)
        (bisect_right session_list (start + season.end_offset_days)) masks in
    only_both "earnings_season" masks middle painted (range-PaintsOnly "earnings_season" _ _ masks)
      (seasons-PaintsOnly session_list year seasons middle painted rest)

pub years-PaintsOnly :
    (session_list years : List ℕ) (seasons : List EarningsSeasonConfig) (masks painted : Masks)
    → paint_years session_list years seasons masks ≡ ok painted
    → PaintsOnly "earnings_season" masks painted
unfolding paint_years
years-PaintsOnly session_list [] seasons masks painted h =
    rw (← ok-injective h) (only_none "earnings_season" masks)
years-PaintsOnly session_list (year ∷ years) seasons masks painted h =
    let (middle, first, rest) = bind_ok (paint_seasons session_list year seasons masks) _ h in
    only_both "earnings_season" masks middle painted
      (seasons-PaintsOnly session_list year seasons masks middle first)
      (years-PaintsOnly session_list years seasons middle painted rest)
