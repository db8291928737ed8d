-- ===== src/EventWindows/Earnings/Prior.antt =====
-- The quarter before one (src/regime_data_fetch/earnings_season_calendar.py), and how much earlier it
-- begins.
use regime_detection.Prelude.Int.{int_eq}
use regime_detection.Prelude.{
  ℕ, zero, suc, ◌+◌, ◌-◌, ◌≤◌, ◌≡◌, refl, inl, inr, true, arith, Bool-cases, ◌==◌, nat_eq,
  string_eq, bool_eq, contains, ok,
}
use regime_detection.EventWindows.Dates.{days_in_month, days_before_month, days_before_year}
use regime_detection.EventWindows.Dates.Weekdays.{days_in_month_bounds}
use regime_detection.EventWindows.Earnings.{quarter_start_months, previous_quarter_start}

-- The days before a month, in ordinals.
unfoldable pub before : ℕ → ℕ → ℕ
before y m = days_before_year y + days_before_month y m

same : (q k : ℕ) → (q == k) ≡ true → q ≡ k
same q k h = (nat_eq.eq_test_iff q k).0 h

-- The quarter before one, which begins 49 days or more earlier.
pub record Prior (y q : ℕ) : Type 0 where
  pub year : ℕ
  pub start : ℕ
  pub previous : previous_quarter_start y q ≡ ok (year, start)
  pub from_year : 1 ≤ year
  pub to_year : year ≤ y
  pub from_month : 1 ≤ start
  pub to_month : start ≤ 12
  pub quarter : contains quarter_start_months start ≡ true
  pub gap : before year start + 49 ≤ before y q

year_gap : (y : ℕ) → 2 ≤ y → before (y - 1) 10 + 49 ≤ before y 1
unfolding before days_before_year days_before_month
year_gap y low =
    let (least, most) = days_in_month_bounds (y - 1) 2 in omega (arith, least, most, low)

first-Prior : (y : ℕ) → 2 ≤ y → Prior y 1
first-Prior y low = record {
  year = y - 1;
  start = 10;
  previous = refl;
  from_year = omega arith;
  to_year = omega arith;
  from_month = omega arith;
  to_month = omega arith;
  quarter = refl;
  gap = year_gap y low;
}

month_gap :
    (y : ℕ)
    → (before y 1 + 49 ≤ before y 4)
      × (before y 4 + 49 ≤ before y 7)
      × (before y 7 + 49 ≤ before y 10)
unfolding before days_before_month days_in_month
month_gap y = (omega arith, omega arith, omega arith)

later-Prior :
    (y q start : ℕ)
    → 2 ≤ y
    → previous_quarter_start y q ≡ ok (y, start)
    → 1 ≤ start
    → start ≤ 12
    → contains quarter_start_months start ≡ true
    → before y start + 49 ≤ before y q
    → Prior y q
later-Prior y q start low is_previous from to is_quarter before_quarter = record {
  year = y;
  start = start;
  previous = is_previous;
  from_year = omega arith;
  to_year = omega arith;
  from_month = from;
  to_month = to;
  quarter = is_quarter;
  gap = before_quarter;
}

pub quarter-Prior : (y q : ℕ) → 2 ≤ y → contains quarter_start_months q ≡ true → Prior y q
quarter-Prior y q low h = elim (Bool-cases (q == 1)) [
  | inl first ↦ rw (same q 1 first) (first-Prior y low)
  | inr after_first ↦ elim (Bool-cases (q == 4)) [
    | inl second ↦
        rw (same q 4 second)
          (later-Prior y 4 1 low refl (omega arith) (omega arith) refl (month_gap y).0)
    | inr after_second ↦ elim (Bool-cases (q == 7)) [
      | inl third ↦
          rw (same q 7 third)
            (later-Prior y 7 4 low refl (omega arith) (omega arith) refl (month_gap y).1)
      | inr after_third ↦
          let last : q ≡ 10 = ground arith in
          rw last (later-Prior y 10 7 low refl (omega arith) (omega arith) refl (month_gap y).2)
    ]
  ]
]

next_month_later : (y m : ℕ) → 1 ≤ m → days_before_month y m ≤ days_before_month y (suc m)
unfolding days_before_month
next_month_later y zero low = absurd (omega arith)
next_month_later y (suc m) low = omega arith

pub later_month : (y m more : ℕ) → 1 ≤ m → days_before_month y m ≤ days_before_month y (m + more)
later_month y m zero low = let same : m + 0 ≡ m = omega arith in rw same (omega arith)
later_month y m (suc more) low =
    let same : m + suc more ≡ suc (m + more) = omega arith in
    let step = next_month_later y (m + more) (omega arith) in
    let before_it = later_month y m more low in rw same (omega arith)
