-- ===== src/EventWindows/Dates.antt =====
-- The parts of Python's datetime and calendar that the event windows use: civil dates, their day
-- ordinals (`toordinal`), weekdays and the weeks of a month.
pub mod Weekdays
use regime_detection.Prelude.Int.{int_eq}
use regime_detection.Prelude.{
  ℕ, zero, suc, ◌+◌, ◌-◌, ◌*◌, ◌/◌, ◌%◌, Bool, not, ◌&&◌, ◌||◌, List, [], ◌∷◌, ltb, leb,
  if◌then◌else◌, ◌==◌, nat_eq, string_eq, bool_eq, contains, value_error, index_error, Result, ok,
  err, ◌>>=◌, ◌>>◌, raise_if,
}

pub record Date : Type 0 where
  pub year : ℕ
  pub month : ℕ
  pub day : ℕ

abbrev pub is_leap : ℕ → Bool
is_leap year = year % 4 == 0 && (not (year % 100 == 0) || year % 400 == 0)

unfoldable pub days_in_month : ℕ → ℕ → ℕ
days_in_month year month =
    if month == 2
    then (if is_leap year then 29 else 28)
    else (if contains (4 ∷ 6 ∷ 9 ∷ 11 ∷ []) month then 30 else 31)

unfoldable pub days_before_month : ℕ → ℕ → ℕ
unfolding days_in_month
days_before_month year zero = 0
days_before_month year (suc zero) = 0
days_before_month year (suc (suc month)) =
    days_before_month year (suc month) + days_in_month year (suc month)

unfoldable pub days_before_year : ℕ → ℕ
days_before_year year = let past = year - 1 in past * 365 + past / 4 - past / 100 + past / 400

-- `date.toordinal()`
unfoldable pub to_ordinal : Date → ℕ
unfolding days_before_year days_before_month
to_ordinal date = days_before_year date.year + days_before_month date.year date.month + date.day

-- `date.weekday()`, Monday is 0.
unfoldable pub weekday : ℕ → ℕ
weekday ordinal = (ordinal + 6) % 7

abbrev pub monday : ℕ
monday = 0

abbrev pub friday : ℕ
friday = 4

-- `dt.date(year, month, day)`
unfoldable pub make_date : ℕ → ℕ → ℕ → Result Date
unfolding days_in_month
make_date year month day = do
  raise_if (ltb year 1 || ltb 9_999 year) value_error
  raise_if (ltb month 1 || ltb 12 month) value_error
  raise_if (ltb day 1 || ltb (days_in_month year month) day) value_error
  ok (record { year = year; month = month; day = day })

-- The entry of a month's weeks at a position, with the first of the month in the column `first`: a
-- day of the month, or 0 outside it.
abbrev pub entry_at : ℕ → ℕ → ℕ → ℕ
entry_at first days position =
    if leb first position && ltb position (first + days) then position + 1 - first else 0

-- `[week[column] for week in weeks if week[column] != 0]` over the weeks from `week` on.
unfoldable pub column_days_from : ℕ → ℕ → ℕ → ℕ → ℕ → List ℕ
column_days_from first days column week zero = []
column_days_from first days column week (suc weeks) =
    let rest = column_days_from first days column (suc week) weeks in
    let entry = entry_at first days (7 * week + column) in if entry == 0 then rest else entry ∷ rest

-- The same over `calendar.monthcalendar(year, month)`.
unfoldable pub column_days : ℕ → ℕ → ℕ → List ℕ
unfolding column_days_from weekday to_ordinal days_in_month
column_days year month column =
    let first = weekday (to_ordinal (record { year = year; month = month; day = 1 })) in
    let days = days_in_month year month in
    column_days_from first days column 0 ((first + days + 6) / 7)

-- `days[i]`
abbrev pub day_at : List ℕ → ℕ → Result ℕ
day_at [] i = err index_error
day_at (day ∷ days) zero = ok day
day_at (day ∷ days) (suc i) = day_at days i
