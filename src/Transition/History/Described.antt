-- ===== src/Transition/History/Described.antt =====
-- The columns of the history against a description of one session by the sessions up to it.
use regime_detection.Prelude.Int.{ℤ, pos, int_eq}
use regime_detection.Prelude.{
  bind_same, ℕ, zero, suc, ◌+◌, ◌≡◌, refl, ap, ◌∙◌, Bool, false, Option, none, some, List, [], ◌∷◌,
  map, ltb, if◌then◌else◌, nat_eq, string_eq, bool_eq, take, any, ok, ◌>>=◌,
}
use regime_detection.Transition.History.Seen.{
  seen_at, newest, seen_at-map, rolling_at, map_each, map-map,
}
use regime_detection.Transition.History.LastSwitch.{days_since_at, days_back_flags}
use regime_detection.Transition.History.{
  TransitionRiskHistory, StableLabels, StableRow, stable_frame, changed_axes, switch_counts_after,
  axis_switch_count, stable_changed, days_since_axis_switch, shift, sum_of,
  recent_axis_switch_count, is_bear, prior_bear, by_date, history_of, build_transition_risk_history,
}

-- The axes that switched on the newest day of some days.
unfoldable pub switches_on : List StableRow → ℕ
switches_on (row ∷ before ∷ rows) = changed_axes before row
switches_on _ = 0

-- The days since the last switch, at most `n` of them looked at, from `days` on.
unfoldable pub days_back : ℕ → ℕ → List StableRow → Option ℤ
days_back zero days rows = none
days_back (suc n) days [] = none
days_back (suc n) days (row ∷ rows) =
    let earlier = days_back n (suc days) rows in
    if ltb 0 (switches_on (row ∷ rows)) then some (pos days) else earlier

-- The switches of the newest `n` days.
unfoldable pub switches_within : ℕ → List StableRow → ℕ
switches_within zero rows = 0
switches_within (suc n) [] = 0
switches_within (suc n) (row ∷ rows) = switches_on (row ∷ rows) + switches_within n rows

-- A bear trend on one of the 60 days before the newest.
unfoldable pub bear_before : List StableRow → Bool
bear_before [] = false
bear_before (row ∷ rows) = any is_bear (take 60 rows)

-- The history as one description per session.
unfoldable pub described : List ℕ → List StableRow → TransitionRiskHistory
described sessions rows =
    let days = seen_at [] rows in
    record {
      stable_changed_by_date = by_date sessions (map (λ seen. ltb 0 (switches_on seen)) days);
      days_since_axis_switch_by_date = by_date sessions (map (days_back 60 0) days);
      axis_switch_count_by_date = by_date sessions (map switches_on days);
      recent_axis_switch_count_by_date = by_date sessions (map (switches_within 5) days);
      prior_bear_by_date = by_date sessions (map bear_before days);
    }

count_at :
    (before : StableRow) (seen rows : List StableRow)
    → switch_counts_after before rows ≡ map switches_on (seen_at (before ∷ seen) rows)
unfolding switch_counts_after seen_at switches_on
count_at before seen [] = refl
count_at before seen (row ∷ rows) =
    ap (◌∷◌ (changed_axes before row)) (count_at row (before ∷ seen) rows)

counts_at : (rows : List StableRow) → axis_switch_count rows ≡ map switches_on (seen_at [] rows)
unfolding axis_switch_count seen_at switches_on
counts_at [] = refl
counts_at (row ∷ rows) = ap (◌∷◌ 0) (count_at row [] rows)

changed_at :
    (counts : List (List StableRow))
    → stable_changed (map switches_on counts) ≡ map (λ seen. ltb 0 (switches_on seen)) counts
unfolding stable_changed
changed_at [] = refl
changed_at (seen ∷ counts) = ap (◌∷◌ (ltb 0 (switches_on seen))) (changed_at counts)

flags_back :
    (n days : ℕ) (rows : List StableRow)
    → days_back_flags n days (newest (λ seen. ltb 0 (switches_on seen)) rows)
      ≡ days_back n days rows
unfolding days_back_flags newest days_back
flags_back zero days rows = refl
flags_back (suc n) days [] = refl
flags_back (suc n) days (row ∷ rows) = rw (flags_back n (suc days) rows) refl

sum-take :
    (n : ℕ) (rows : List StableRow)
    → sum_of (take n (newest switches_on rows)) ≡ switches_within n rows
unfolding newest switches_within
sum-take zero rows = refl
sum-take (suc n) [] = refl
sum-take (suc n) (row ∷ rows) = rw (sum-take n rows) refl

days_described :
    (rows : List StableRow)
    → days_since_axis_switch (stable_changed (axis_switch_count rows))
      ≡ map (days_back 60 0) (seen_at [] rows)
unfolding newest
days_described rows =
    let flag : List StableRow → Bool = λ seen. ltb 0 (switches_on seen) in
    rw (counts_at rows, changed_at (seen_at [] rows))
      (days_since_at (map flag (seen_at [] rows))
        ∙ ap (map (days_back_flags 60 0)) (seen_at-map flag [] rows)
        ∙ map-map (days_back_flags 60 0) (newest flag) (seen_at [] rows)
        ∙ map_each _ (days_back 60 0) (seen_at [] rows) (flags_back 60 0))

recent_described :
    (rows : List StableRow)
    → recent_axis_switch_count (axis_switch_count rows) ≡ map (switches_within 5) (seen_at [] rows)
unfolding recent_axis_switch_count newest
recent_described rows =
    rw
      (
        counts_at rows,
        rolling_at 5 [] (map switches_on (seen_at [] rows)),
        map-map sum_of (take 5) (seen_at [] (map switches_on (seen_at [] rows))),
        seen_at-map switches_on [] rows,
      )
      (map-map (λ h. sum_of (take 5 h)) (newest switches_on) (seen_at [] rows)
        ∙ map_each _ (switches_within 5) (seen_at [] rows) (sum-take 5))

-- What the shifted column has seen: the days before the newest, and the fill value.
shifted : List StableRow → List Bool
shifted [] = false ∷ []
shifted (row ∷ rows) = is_bear row ∷ shifted rows

tail_of : List StableRow → List StableRow
tail_of [] = []
tail_of (row ∷ rows) = rows

shift_at :
    (fill : Bool) (past : List Bool) (seen rows : List StableRow)
    → fill ∷ past ≡ shifted seen
    → seen_at past (shift fill (map is_bear rows))
      ≡ map (λ days. shifted (tail_of days)) (seen_at seen rows)
unfolding seen_at shift shifted tail_of
shift_at fill past seen [] same = refl
shift_at fill past seen (row ∷ rows) same =
    rw same (ap (◌∷◌ (shifted seen)) (shift_at (is_bear row) (shifted seen) (row ∷ seen) rows refl))

any-shifted :
    (n : ℕ) (rows : List StableRow)
    → any (λ b. b) (take n (shifted rows)) ≡ any is_bear (take n rows)
unfolding shifted
any-shifted zero rows = refl
any-shifted (suc zero) [] = refl
any-shifted (suc (suc n)) [] = refl
any-shifted (suc n) (row ∷ rows) = rw (any-shifted n rows) refl

bear-shifted :
    (days : List StableRow) → any (λ b. b) (take 60 (shifted (tail_of days))) ≡ bear_before days
unfolding bear_before tail_of shifted
bear-shifted [] = refl
bear-shifted (row ∷ rows) = any-shifted 60 rows

bear_described : (rows : List StableRow) → prior_bear rows ≡ map bear_before (seen_at [] rows)
unfolding prior_bear shifted
bear_described rows =
    let any_of : List Bool → Bool = any (λ b. b) in
    rw
      (
        rolling_at 60 [] (shift false (map is_bear rows)),
        shift_at false [] [] rows refl,
        map-map (take 60) (λ days. shifted (tail_of days)) (seen_at [] rows),
      )
      (map-map any_of (λ days. take 60 (shifted (tail_of days))) (seen_at [] rows)
        ∙ map_each _ bear_before (seen_at [] rows) bear-shifted)

pub history_described :
    (sessions : List ℕ) (rows : List StableRow) → history_of sessions rows ≡ described sessions rows
unfolding history_of described
history_described sessions rows =
    rw
      (
        days_described rows,
        recent_described rows,
        bear_described rows,
        counts_at rows,
        changed_at (seen_at [] rows),
      )
      refl

-- The history that the frame's columns give is, session by session, what the stable labels up to that
-- session say. The count is the number of axes whose label differs from the session before, 0 on the
-- first; the change flag says whether it is positive; the days since a switch are the distance to the
-- newest session with a positive count, where it is one of the newest 60, and missing otherwise; the
-- recent count adds the newest five counts; and the bear flag asks for a bear trend on one of the 60
-- sessions before. Where a label is missing both raise the same error.
pub build_transition_risk_history-eq-described :
    (labels : StableLabels) (sessions : List ℕ)
    → build_transition_risk_history labels sessions
      ≡ (stable_frame labels sessions >>= λ rows. ok (described sessions rows))
unfolding build_transition_risk_history
build_transition_risk_history-eq-described labels sessions =
    bind_same (stable_frame labels sessions) _ _ (λ rows. ap ok (history_described sessions rows))
