-- ===== src/Calendar/Tests.antt =====
-- Sessions of a small exchange: years of a hundred days, with a schedule in two of them.
use regime_detection.Prelude.Int.{int_eq}
use regime_detection.Prelude.{
  ℕ, ◌/◌, ◌≤◌, ◌<◌, ◌≡◌, refl, ◌⊎◌, true, [], ◌∷◌, if◌then◌else◌, ◌==◌, nat_eq, string_eq, bool_eq,
  contains, runtime_error, ok, err,
}
use regime_detection.Calendar.{
  Exchange, sessions_of_years, nyse_sessions_between, neighbors_of, nyse_neighbors,
}
use regime_detection.Calendar.Neighbors.{window, nyse_neighbors_nearest}

abbrev exchange : Exchange
exchange = record {
  year_of = λ d. d / 100;
  schedule = λ y. if y == 1 then 195 ∷ 196 ∷ 199 ∷ [] else (if y == 2 then 203 ∷ 204 ∷ [] else []);
}

-- A date between two years, and one that has no session near it.
neighbors_run :
    nyse_neighbors exchange 199 ≡ ok (record { prev_trading_day = 196; next_trading_day = 203 })
unfolding nyse_neighbors nyse_sessions_between sessions_of_years neighbors_of
neighbors_run = refl

neighbors_missing : nyse_neighbors exchange 150 ≡ err runtime_error
unfolding nyse_neighbors nyse_sessions_between sessions_of_years neighbors_of
neighbors_missing = refl

abbrev asked : ℕ
asked = 204

nyse_neighbors_nearest_example :
    (contains (window exchange 199) 196 ≡ true)
    × (contains (window exchange 199) 203 ≡ true)
    × (196 < 199)
    × (199 < 203)
    × ((asked ≤ 196) ⊎ ((asked ≡ 199) ⊎ (203 ≤ asked)))
unfolding nyse_sessions_between sessions_of_years
nyse_neighbors_nearest_example =
    nyse_neighbors_nearest exchange 199 (record { prev_trading_day = 196; next_trading_day = 203 })
      204 neighbors_run refl
