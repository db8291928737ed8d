-- ===== src/Calendar.antt =====
-- src/regime_detection/calendar.py: sessions of the exchange between two dates, and the sessions
-- next to a date. Dates are day ordinals. The schedule of a year comes from
-- pandas_market_calendars, and the year of a date from datetime: both are parameters.
pub mod Neighbors
mod TradingDay
mod Tests
use regime_detection.Prelude.{
  ℕ, zero, suc, ◌+◌, ◌-◌, Bool, ◌&&◌, Option, none, some, List, [], ◌∷◌, ◌++◌, Result, ok, err,
  value_error, runtime_error, ltb, leb, length, if◌then◌else◌,
}

pub record Exchange : Type 0 where
  pub year_of : ℕ → ℕ
  pub schedule : ℕ → List ℕ

abbrev pub keep : (ℕ → Bool) → List ℕ → List ℕ
keep test [] = []
keep test (d ∷ ds) = let rest = keep test ds in if test d then d ∷ rest else rest

-- The generator over `range(first, first + years)`.
unfoldable pub sessions_of_years : Exchange → ℕ → ℕ → ℕ → ℕ → List ℕ
sessions_of_years x start end first zero = []
sessions_of_years x start end first (suc years) =
    keep (λ d. leb start d && leb d end) (x.schedule first)
    ++ sessions_of_years x start end (first + 1) years

unfoldable pub nyse_sessions_between : Exchange → ℕ → ℕ → List ℕ
unfolding sessions_of_years
nyse_sessions_between x start end =
    sessions_of_years x start end (x.year_of start) (x.year_of end + 1 - x.year_of start)

unfoldable pub is_nyse_trading_day : Exchange → ℕ → Bool
unfolding nyse_sessions_between
is_nyse_trading_day x d = ltb 0 (length (nyse_sessions_between x d d))

pub record TradingDayNeighbors : Type 0 where
  pub prev_trading_day : ℕ
  pub next_trading_day : ℕ

abbrev pub nyse_neighbor_window_days : ℕ
nyse_neighbor_window_days = 10

-- `sessions.max()` and `sessions.min()`, `none` on an empty index.
abbrev pub max_of : List ℕ → Option ℕ
max_of [] = none
max_of (d ∷ ds) = elim (max_of ds) [ none ↦ some d | some m ↦ some (if ltb m d then d else m) ]

abbrev pub min_of : List ℕ → Option ℕ
min_of [] = none
min_of (d ∷ ds) = elim (min_of ds) [ none ↦ some d | some m ↦ some (if ltb d m then d else m) ]

unfoldable pub neighbors_of : Option ℕ → Option ℕ → Result TradingDayNeighbors
neighbors_of (some p) (some n) = ok (record { prev_trading_day = p; next_trading_day = n })
neighbors_of _ _ = err runtime_error

-- `RuntimeError` where a side has no session; an empty window is such a case.
unfoldable pub nyse_neighbors : Exchange → ℕ → Result TradingDayNeighbors
unfolding neighbors_of nyse_sessions_between
nyse_neighbors x d =
    let sessions =
      nyse_sessions_between x (d - nyse_neighbor_window_days) (d + nyse_neighbor_window_days) in
    neighbors_of (max_of (keep (λ s. ltb s d) sessions)) (min_of (keep (λ s. ltb d s) sessions))

-- The message of the `ValueError` names the neighbours, so their lookup may raise first.
refuse_date : Result TradingDayNeighbors → Result (Unit {0})
refuse_date (ok n) = err value_error
refuse_date (err e) = err e

unfoldable pub require_nyse_trading_day : Exchange → ℕ → Result (Unit {0})
unfolding refuse_date is_nyse_trading_day nyse_neighbors
require_nyse_trading_day x d =
    if is_nyse_trading_day x d then ok tt else refuse_date (nyse_neighbors x d)
