-- ===== src/Calendar/TradingDay.antt =====
-- The trading-day test and the exchange's schedule.
use regime_detection.Prelude.Int.{int_eq}
use regime_detection.Prelude.{
  ℕ, ◌+◌, ◌-◌, ◌≡◌, refl, inl, inr, true, false, ◌&&◌, List, [], ◌∷◌, ◌++◌, arith, ltb, leb,
  Bool-cases, ◌==◌, nat_eq, string_eq, bool_eq, contains, length,
}
use regime_detection.Calendar.{
  Exchange, keep, sessions_of_years, nyse_sessions_between, is_nyse_trading_day,
}

keep_one :
    (days : List ℕ) (d : ℕ)
    → ltb 0 (length (keep (λ s. leb d s && leb s d) days ++ [])) ≡ contains days d
keep_one [] d = refl
keep_one (x ∷ days) d = elim (Bool-cases (leb d x && leb x d)) [
  | inl here ↦ let same : (x == d) ≡ true = ground arith in rw (here, same) (ground arith)
  | inr other ↦ let apart : (x == d) ≡ false = ground arith in rw (other, apart) (keep_one days d)
]

-- A date is a trading day exactly when the schedule of its year lists it.
pub is_nyse_trading_day-eq-contains :
    (x : Exchange) (d : ℕ) → is_nyse_trading_day x d ≡ contains (x.schedule (x.year_of d)) d
unfolding is_nyse_trading_day nyse_sessions_between sessions_of_years
is_nyse_trading_day-eq-contains x d =
    let one_year : x.year_of d + 1 - x.year_of d ≡ 1 = omega arith in
    rw one_year (keep_one (x.schedule (x.year_of d)) d)
