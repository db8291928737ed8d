-- ===== src/EventWindows/Dates/Weekdays.antt =====
-- The days of a month with a weekday: the one at an index, and the weekday it falls on.
use regime_detection.Prelude.Int.{int_eq}
use regime_detection.Prelude.{
  nat_test, ℕ, suc, ◌+◌, ◌-◌, ◌*◌, ◌/◌, ◌≤◌, ◌<◌, ◌≡◌, refl, ◌≢◌, inl, inr, false, ◌||◌, List, ◌∷◌,
  arith, ltb, leb, if◌then◌else◌, leb→le, Bool-cases, nat_eq, string_eq, bool_eq, ok,
}
use regime_detection.EventWindows.Dates.{
  days_in_month, to_ordinal, weekday, entry_at, column_days_from, column_days, make_date,
}

pub days_in_month_bounds : (y m : ℕ) → (28 ≤ days_in_month y m) × (days_in_month y m ≤ 31)
unfolding days_in_month
days_in_month_bounds y m = ground arith

-- The position of a day in a month that begins in the column `first`.
abbrev pub first_in_column : ℕ → ℕ → ℕ
first_in_column first column = if leb first column then column + 1 - first else column + 8 - first

entry_before : (first days column : ℕ) → column < first → entry_at first days column ≡ 0
entry_before first days column h = ground arith

entry_inside :
    (first days position : ℕ)
    → first ≤ position
    → position < first + days
    → entry_at first days position ≡ position + 1 - first
entry_inside first days position h h' = ground arith

nat_test-false : (a b : ℕ) → a ≢ b → nat_test a b ≡ false
nat_test-false a b h = ground arith

skip_entry :
    (first days column week weeks : ℕ)
    → entry_at first days (7 * week + column) ≡ 0
    → column_days_from first days column week (suc weeks)
      ≡ column_days_from first days column (suc week) weeks
unfolding column_days_from
skip_entry first days column week weeks h = rw h refl

take_entry :
    (first days column week weeks : ℕ)
    → first ≤ 7 * week + column
    → 7 * week + column < first + days
    → column_days_from first days column week (suc weeks)
      ≡ (7 * week + column + 1 - first) ∷ column_days_from first days column (suc week) weeks
unfolding column_days_from
take_entry first days column week weeks h h' =
    rw
      (
        entry_inside first days (7 * week + column) h h',
        nat_test-false (7 * week + column + 1 - first) 0 (λ z. omega (arith, h, z)),
      )
      refl

-- A column of a month begins with the first day of its weekday, and goes on week by week.
ColumnStart : ℕ → List ℕ → Type 0
ColumnStart day days = (rest : List ℕ) × (days ≡ day ∷ (day + 7) ∷ (day + 14) ∷ rest)

column_early :
    (first days column weeks : ℕ)
    → first ≤ column
    → column < 7
    → 28 ≤ days
    → ColumnStart
        (column + 1 - first)
        (column_days_from first days column 0 (suc (suc (suc weeks))))
unfolding ColumnStart
column_early first days column weeks f c d =
    let one : 7 * 0 + column + 1 - first ≡ column + 1 - first = omega arith in
    let two : 7 * 1 + column + 1 - first ≡ column + 1 - first + 7 = omega (arith, f) in
    let three : 7 * 2 + column + 1 - first ≡ column + 1 - first + 14 = omega (arith, f) in
    (
      column_days_from first days column 3 weeks,
      rw
          (
            take_entry first days column 0 (suc (suc weeks)) (omega (arith, f))
                (omega (arith, c, d)),
            take_entry first days column 1 (suc weeks) (omega (arith, f)) (omega (arith, c, d)),
            take_entry first days column 2 weeks (omega (arith, f)) (omega (arith, c, d)),
            one,
            two,
            three,
          )
          refl,
    )

column_late :
    (first days column weeks : ℕ)
    → column < first
    → first < 7
    → 28 ≤ days
    → ColumnStart
        (column + 8 - first)
        (column_days_from first days column 0 (suc (suc (suc (suc weeks)))))
unfolding ColumnStart
column_late first days column weeks f c d =
    let skipped : entry_at first days (7 * 0 + column) ≡ 0 =
      entry_before first days (7 * 0 + column) (omega (arith, f)) in
    let one : 7 * 1 + column + 1 - first ≡ column + 8 - first = omega arith in
    let two : 7 * 2 + column + 1 - first ≡ column + 8 - first + 7 = omega (arith, c) in
    let three : 7 * 3 + column + 1 - first ≡ column + 8 - first + 14 = omega (arith, c) in
    (
      column_days_from first days column 4 weeks,
      rw
          (
            skip_entry first days column 0 (suc (suc (suc weeks))) skipped,
            take_entry first days column 1 (suc (suc weeks)) (omega (arith, c))
                (omega (arith, f, d)),
            take_entry first days column 2 (suc weeks) (omega (arith, c)) (omega (arith, f, d)),
            take_entry first days column 3 weeks (omega (arith, c)) (omega (arith, f, d)),
            one,
            two,
            three,
          )
          refl,
    )

column_start :
    (first days column weeks : ℕ)
    → first < 7
    → column < 7
    → 28 ≤ days
    → ColumnStart
        (first_in_column first column)
        (column_days_from first days column 0 (suc (suc (suc (suc weeks)))))
column_start first days column weeks f c d = elim (Bool-cases (leb first column)) [
  | inl early ↦
      rw early (column_early first days column (suc weeks) (leb→le first column early) c d)
  | inr late ↦ rw late (column_late first days column weeks (ground arith) f d)
]

-- The first of a month, as a weekday.
abbrev pub month_start : ℕ → ℕ → ℕ
month_start y m = weekday (to_ordinal (record { year = y; month = m; day = 1 }))

pub weekday_lt : (ordinal : ℕ) → weekday ordinal < 7
unfolding weekday
weekday_lt ordinal = omega arith

pub column_days_start :
    (y m column : ℕ)
    → column < 7
    → (rest : List ℕ) × (column_days y m column
        ≡ first_in_column (month_start y m) column
          ∷ (first_in_column (month_start y m) column + 7)
          ∷ (first_in_column (month_start y m) column + 14)
          ∷ rest)
unfolding ColumnStart column_days
column_days_start y m column c =
    let (low, high) = days_in_month_bounds y m in
    let weeks = (month_start y m + days_in_month y m + 6) / 7 - 4 in
    let count : (month_start y m + days_in_month y m + 6) / 7 ≡ suc (suc (suc (suc weeks))) =
      omega (arith, low) in
    rw count (
      column_start (month_start y m) (days_in_month y m) column weeks
        (weekday_lt (to_ordinal (record { year = y; month = m; day = 1 }))) c low)

-- The days of a column fall on its weekday.
pub column-weekday :
    (y m column k : ℕ)
    → column < 7
    → weekday (
        to_ordinal
          (record { year = y; month = m; day = first_in_column (month_start y m) column + 7 * k }))
      ≡ column
unfolding weekday to_ordinal
column-weekday y m column k c = ground arith

-- Where datetime accepts a date.
pub make_date-ok :
    (y m d : ℕ)
    → 1 ≤ y
    → y ≤ 9_999
    → 1 ≤ m
    → m ≤ 12
    → 1 ≤ d
    → d ≤ days_in_month y m
    → make_date y m d ≡ ok (record { year = y; month = m; day = d })
unfolding make_date
make_date-ok y m d y1 y2 m1 m2 d1 d2 =
    let years : ltb y 1 || ltb 9_999 y ≡ false = ground arith in
    let months : ltb m 1 || ltb 12 m ≡ false = ground arith in
    let days : ltb d 1 || ltb (days_in_month y m) d ≡ false = ground arith in
    rw (years, months, days) refl
