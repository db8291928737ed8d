-- ===== src/Transition/History.antt =====
-- `build_transition_risk_history` of src/regime_detection/transition_risk_history.py: when the stable
-- labels of the axes last switched, how often lately, and whether the trend was bear before today.
-- A column of a frame is the list of its values, in the order of the sessions, which are distinct
-- days. The labels of a session are looked up together: a missing one is a `KeyError` either way.
mod Seen
mod LastSwitch
mod Described
mod Prefix
mod Missing
mod Tests
use regime_detection.Prelude.Int.{ℤ, pos, negsuc, ◌-ℤ◌, ltb_ℤ, leb_ℤ, int_eq}
use regime_detection.Prelude.{
  ℕ, suc, ◌+◌, String, Bool, false, ◌&&◌, Option, none, some, List, [], ◌∷◌, map, ltb,
  if◌then◌else◌, ◌==◌, nat_eq, string_eq, bool_eq, take, any, Result, ok, ◌>>=◌, ◌>>◌,
}
use regime_detection.Prelude.Dict.{Dict, get}

pub record TransitionRiskHistory : Type 0 where
  pub stable_changed_by_date : Dict ℕ Bool
  pub days_since_axis_switch_by_date : Dict ℕ (Option ℤ)
  pub axis_switch_count_by_date : Dict ℕ ℕ
  pub recent_axis_switch_count_by_date : Dict ℕ ℕ
  pub prior_bear_by_date : Dict ℕ Bool

-- The four dictionaries of stable labels.
pub record StableLabels : Type 0 where
  pub trend_direction_stable_by_date : Dict ℕ String
  pub trend_character_stable_by_date : Dict ℕ String
  pub volatility_stable_by_date : Dict ℕ String
  pub breadth_stable_by_date : Dict ℕ String

-- A row of `stable_frame`.
pub record StableRow : Type 0 where
  pub trend_direction : String
  pub trend_character : String
  pub volatility : String
  pub breadth : String

unfoldable pub stable_row : StableLabels → ℕ → Result StableRow
stable_row labels day = do
  direction ← get labels.trend_direction_stable_by_date day
  character ← get labels.trend_character_stable_by_date day
  volatility ← get labels.volatility_stable_by_date day
  breadth ← get labels.breadth_stable_by_date day
  ok (record {
    trend_direction = direction;
    trend_character = character;
    volatility = volatility;
    breadth = breadth;
  })

unfoldable pub stable_frame : StableLabels → List ℕ → Result (List StableRow)
unfolding stable_row
stable_frame labels [] = ok []
stable_frame labels (day ∷ days) = do
  row ← stable_row labels day
  rows ← stable_frame labels days
  ok (row ∷ rows)

differs : String → String → ℕ
differs a b = if a == b then 0 else 1

-- The axes of a row that differ from the row before.
unfoldable pub changed_axes : StableRow → StableRow → ℕ
unfolding differs
changed_axes before row =
    differs row.trend_direction before.trend_direction
    + differs row.trend_character before.trend_character
    + differs row.volatility before.volatility
    + differs row.breadth before.breadth

unfoldable pub switch_counts_after : StableRow → List StableRow → List ℕ
unfolding changed_axes
switch_counts_after before [] = []
switch_counts_after before (row ∷ rows) = changed_axes before row ∷ switch_counts_after row rows

-- The first session has no row before it; its count is set to 0.
unfoldable pub axis_switch_count : List StableRow → List ℕ
unfolding switch_counts_after
axis_switch_count [] = []
axis_switch_count (row ∷ rows) = 0 ∷ switch_counts_after row rows

unfoldable pub stable_changed : List ℕ → List Bool
stable_changed counts = map (λ n. ltb 0 n) counts

-- `position.where(stable_changed, -1)`
unfoldable pub switch_positions : ℕ → List Bool → List ℤ
switch_positions position [] = []
switch_positions position (changed ∷ rest) =
    (if changed then pos position else negsuc 0) ∷ switch_positions (suc position) rest

abbrev pub max_ℤ : ℤ → ℤ → ℤ
max_ℤ a b = if ltb_ℤ a b then b else a

unfoldable pub cummax_after : ℤ → List ℤ → List ℤ
cummax_after best [] = []
cummax_after best (x ∷ xs) = max_ℤ best x ∷ cummax_after (max_ℤ best x) xs

unfoldable pub cummax : List ℤ → List ℤ
unfolding cummax_after
cummax [] = []
cummax (x ∷ xs) = x ∷ cummax_after x xs

-- `delta.where(within_60_sessions)` at one position, NaN as `none`.
unfoldable pub days_within : ℕ → ℤ → Option ℤ
unfolding ◌-ℤ◌
days_within position last =
    if leb_ℤ (pos 0) last && leb_ℤ (pos position -ℤ pos 59) last
    then some (pos position -ℤ last)
    else none

unfoldable pub days_column : ℕ → List ℤ → List (Option ℤ)
unfolding days_within
days_column position [] = []
days_column position (last ∷ lasts) = days_within position last ∷ days_column (suc position) lasts

unfoldable pub days_since_axis_switch : List Bool → List (Option ℤ)
unfolding days_column cummax switch_positions
days_since_axis_switch changed = days_column 0 (cummax (switch_positions 0 changed))

-- The windows of `.rolling(window=n, min_periods=1)`, each newest first, after the values `seen`.
unfoldable pub rolling {ℓ} : {A : Type ℓ} → ℕ → List A → List A → List (List A)
rolling n seen [] = []
rolling n seen (x ∷ xs) = take n (x ∷ seen) ∷ rolling n (x ∷ seen) xs

-- `.shift(1, fill_value=fill)`
unfoldable pub shift {ℓ} : {A : Type ℓ} → A → List A → List A
shift fill [] = []
shift fill (x ∷ xs) = fill ∷ shift x xs

abbrev pub sum_of : List ℕ → ℕ
sum_of [] = 0
sum_of (n ∷ ns) = n + sum_of ns

unfoldable pub recent_axis_switch_count : List ℕ → List ℕ
unfolding rolling
recent_axis_switch_count counts = map sum_of (rolling 5 [] counts)

abbrev pub is_bear : StableRow → Bool
is_bear row = row.trend_direction == "bear"

unfoldable pub prior_bear : List StableRow → List Bool
unfolding rolling shift
prior_bear rows = map (any (λ b. b)) (rolling 60 [] (shift false (map is_bear rows)))

-- A column under its index.
unfoldable pub by_date {ℓ} : {A : Type ℓ} → List ℕ → List A → Dict ℕ A
by_date (day ∷ days) (x ∷ xs) = (day, x) ∷ by_date days xs
by_date _ _ = []

unfoldable pub history_of : List ℕ → List StableRow → TransitionRiskHistory
unfolding by_date stable_changed days_since_axis_switch axis_switch_count recent_axis_switch_count
    prior_bear
history_of sessions rows =
    let counts = axis_switch_count rows in
    record {
      stable_changed_by_date = by_date sessions (stable_changed counts);
      days_since_axis_switch_by_date =
          by_date sessions (days_since_axis_switch (stable_changed counts));
      axis_switch_count_by_date = by_date sessions counts;
      recent_axis_switch_count_by_date = by_date sessions (recent_axis_switch_count counts);
      prior_bear_by_date = by_date sessions (prior_bear rows);
    }

unfoldable pub build_transition_risk_history : StableLabels → List ℕ → Result TransitionRiskHistory
unfolding stable_frame history_of
build_transition_risk_history labels sessions = do
  rows ← stable_frame labels sessions
  ok (history_of sessions rows)
