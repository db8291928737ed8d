-- ===== src/Hysteresis.antt =====
-- src/regime_detection/hysteresis.py. Labels are a type with a lawful `==`, dictionaries are
-- association lists and day counts are integers. A day's row is a raw label with its data quality.
mod Dwell
mod Ranks
mod Trailing
pub mod Gap
mod Tests
use regime_detection.Prelude.{
  ℕ, ◌+◌, Bool, not, ◌||◌, Option, none, some, List, [], ◌∷◌, Result, ok, err, value_error, ◌>>=◌,
  ◌>>◌, raise_if, any, PyEq, ◌==◌, is_some_of, if◌then◌else◌,
}
use regime_detection.Prelude.Int.{ℤ, pos, ltb_ℤ, leb_ℤ, int_eq}
use regime_detection.Prelude.Dict.{Dict, get, get_or}

-- The arguments other than the labels; an `escalation_days_by_label` of `None` is the empty one.
pub record Settings {ℓ} (L : Type ℓ) : Type ℓ where
  pub risk_rank : Dict L ℤ
  pub deescalation_days_by_label : Dict L ℤ
  pub escalation_days_by_label : Dict L ℤ
  pub default_escalation_days : ℤ
  pub default_deescalation_days : ℤ

-- The loop's variables.
pub record Memory {ℓ} (L : Type ℓ) : Type ℓ where
  pub stable_label : L
  pub pending_label : Option L
  pub pending_count : ℕ

module _ {ℓ} {L : Type ℓ} where
  -- The label takes effect and nothing is pending.
  abbrev pub settle : L → Memory L
  settle raw = record { stable_label = raw; pending_label = none; pending_count = 0 }

  abbrev pub any_days_below : ℤ → Dict L ℤ → Bool
  any_days_below n days = any (λ e. ltb_ℤ e.1 n) days

module _ {ℓ} {L : Type ℓ} ⦃e : PyEq L⦄ where
  -- How often the raw label has now been seen in a row.
  abbrev pub count_of : L → Memory L → ℕ
  count_of raw m = if is_some_of m.pending_label raw then m.pending_count + 1 else 1

  -- The `pending_label` block, which stands twice in the loop.
  abbrev pub wait : ℤ → L → Memory L → Memory L
  wait threshold raw m =
      if leb_ℤ threshold (pos (count_of raw m))
      then settle raw
      else record m { pending_label = some raw; pending_count = count_of raw m }

  -- A raw label riskier than the stable one.
  escalate : Settings L → L → Memory L → Memory L
  escalate s raw m =
      let threshold = get_or s.escalation_days_by_label raw s.default_escalation_days in
      if threshold == pos 1 then settle raw else wait threshold raw m

  -- A different raw label that is not riskier.
  deescalate : Settings L → L → Memory L → Memory L
  deescalate s raw m =
      let threshold =
        get_or s.deescalation_days_by_label m.stable_label s.default_deescalation_days in
      if threshold == pos 0 then settle raw else wait threshold raw m

  -- The three branches of the loop, given the ranks of the raw and of the stable label.
  unfoldable pub move : Settings L → ℤ → ℤ → L → Memory L → Memory L
  unfolding escalate deescalate
  move s raw_rank stable_rank raw m =
      if ltb_ℤ stable_rank raw_rank
      then escalate s raw m
      else if ltb_ℤ raw_rank stable_rank || not (raw == m.stable_label)
      then deescalate s raw m
      else record m { pending_label = none; pending_count = 0 }

  -- One session; the two lookups may raise `KeyError`.
  unfoldable pub step : Settings L → Memory L → L → Result (Memory L)
  unfolding move
  step s m raw = do
    raw_rank ← get s.risk_rank raw
    stable_rank ← get s.risk_rank m.stable_label
    ok (move s raw_rank stable_rank raw m)

  -- The label shown for the session: the raw one where it is riskier than the stable one.
  unfoldable pub active_of : Settings L → L → L → Result L
  active_of s raw stable = do
    raw_rank ← get s.risk_rank raw
    stable_rank ← get s.risk_rank stable
    ok (if ltb_ℤ stable_rank raw_rank then raw else stable)

  -- The loop: the stable and the active labels.
  unfoldable pub run : Settings L → Memory L → List L → Result (List L × List L)
  run s m [] = ok ([], [])
  run s m (raw ∷ raws) = do
    m' ← step s m raw
    active ← active_of s raw m'.stable_label
    rest ← run s m' raws
    ok (m'.stable_label ∷ rest.0, active ∷ rest.1)

  abbrev pub check_escalation : Settings L → Result (Unit {0})
  check_escalation s = raise_if (any_days_below (pos 1) s.escalation_days_by_label) value_error

  abbrev pub check_settings : Settings L → Result (Unit {0})
  check_settings s = do
    raise_if (ltb_ℤ s.default_escalation_days (pos 1)) value_error
    raise_if (ltb_ℤ s.default_deescalation_days (pos 0)) value_error
    check_escalation s
    raise_if (any_days_below (pos 0) s.deescalation_days_by_label) value_error

  start : Settings L → List L → Result (List L × List L)
  start s [] = err value_error
  start s (raw ∷ raws) = run s (settle raw) (raw ∷ raws)

  unfoldable pub apply_per_label_asymmetric_hysteresis :
      Settings L → List L → Result (List L × List L)
  unfolding start
  apply_per_label_asymmetric_hysteresis s raws = check_settings s >> start s raws
