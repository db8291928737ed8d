-- ===== src/EventWindows/Expiry.antt =====
-- src/regime_data_fetch/expiry_calendar.py: the anchors of the monthly options expiry, and the loop
-- over months that earnings_season_calendar.py has too. A session and an anchor are day ordinals.
pub mod Anchor
mod Months
mod Tests
use regime_detection.Prelude.Int.{int_eq}
use regime_detection.Prelude.{
  ℕ, zero, suc, ◌+◌, ◌-◌, ◌*◌, Bool, ◌&&◌, ◌||◌, Option, none, some, List, [], ◌∷◌, ◌++◌, ltb, leb,
  if◌then◌else◌, ◌==◌, nat_eq, string_eq, bool_eq, contains, value_error, runtime_error, Result, ok,
  err, ◌>>=◌, ◌>>◌,
}
use regime_detection.Calendar.{keep}
use regime_detection.EventWindows.Dates.{
  Date, to_ordinal, days_in_month, column_days, day_at, make_date, friday,
}
use regime_detection.EventWindows.Expand.{Schedule}

unfoldable pub third_friday : ℕ → ℕ → Result Date
unfolding column_days make_date
third_friday year month = do
  day ← day_at (column_days year month friday) 2
  make_date year month day

-- `_nyse_trading_days` of the whole month.
unfoldable pub month_sessions : Schedule → ℕ → ℕ → List ℕ
unfolding to_ordinal days_in_month
month_sessions schedule year month =
    schedule (to_ordinal (record { year = year; month = month; day = 1 }))
      (to_ordinal (record { year = year; month = month; day = days_in_month year month }))

-- `prior_trading_days[-1]`, after the test that there is one.
abbrev pub last_prior : List ℕ → Result ℕ
last_prior [] = err runtime_error
last_prior (d ∷ []) = ok d
last_prior (d ∷ e ∷ days) = last_prior (e ∷ days)

unfoldable pub compute_monthly_options_expiry_anchor : Schedule → ℕ → ℕ → Result ℕ
unfolding third_friday month_sessions to_ordinal
compute_monthly_options_expiry_anchor schedule year month = do
  date ← third_friday year month
  let friday_ordinal = to_ordinal date
  let trading_days = month_sessions schedule year month
  (if contains trading_days friday_ordinal
      then ok friday_ordinal
      else last_prior (keep (λ d. ltb d friday_ordinal) trading_days))

-- `(year, month) <= (end_year, end_month)`
abbrev pub month_leb : ℕ → ℕ → ℕ → ℕ → Bool
month_leb year month end_year end_month =
    ltb year end_year || (year == end_year && leb month end_month)

-- What a turn of a loop appends, before what the later turns append.
abbrev pub after_turn {ℓ} :
    {A : Type ℓ} → Result (List A) → Option (Result (List A)) → Option (Result (List A))
after_turn (err raised) rest = some (err raised)
after_turn (ok here) none = none
after_turn (ok here) (some (err raised)) = some (err raised)
after_turn (ok here) (some (ok later)) = some (ok (here ++ later))

-- The `while` loop over the months up to an end, on fuel: `none` is a loop that is not done.
unfoldable pub month_loop {ℓ} :
    {A : Type ℓ} → (ℕ → ℕ → Result (List A)) → ℕ → ℕ → ℕ → ℕ → ℕ → Option (Result (List A))
month_loop visit end_year end_month zero year month = none
month_loop visit end_year end_month (suc fuel) year month =
    let rest =
      month_loop visit end_year end_month fuel (if month == 12 then year + 1 else year)
        (if month == 12 then 1 else month + 1) in
    if month_leb year month end_year end_month
    then after_turn (visit year month) rest
    else some (ok [])

-- The turns of the loop from one month to another, and the turn that ends it.
abbrev pub month_turns : ℕ → ℕ → ℕ → ℕ → ℕ
month_turns year month end_year end_month =
    suc (12 * end_year + end_month + 1 - (12 * year + month))

unfoldable pub expiry_turn : Schedule → ℕ → ℕ → Result (List ℕ)
unfolding compute_monthly_options_expiry_anchor
expiry_turn schedule year month = do
  anchor ← compute_monthly_options_expiry_anchor schedule year month
  ok (anchor ∷ [])

unfoldable pub build_monthly_options_expiry_anchors :
    Schedule → Date → Date → Option (Result (List ℕ))
unfolding month_loop expiry_turn to_ordinal
build_monthly_options_expiry_anchors schedule start end =
    if ltb (to_ordinal end) (to_ordinal start)
    then some (err value_error)
    else month_loop (expiry_turn schedule) end.year end.month
        (month_turns start.year start.month end.year end.month) start.year start.month
