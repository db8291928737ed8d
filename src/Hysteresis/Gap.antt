-- ===== src/Hysteresis/Gap.antt =====
-- `apply_data_quality_aware_hysteresis` (src/regime_detection/hysteresis.py). Its loop repeats the
-- text of the plain loop, which is `move` here.
mod Bound
mod Agrees
mod Tests
use regime_detection.Prelude.{
  ℕ, ◌+◌, ◌-◌, Bool, true, false, not, ◌&&◌, Option, none, some, List, [], ◌∷◌, Result, ok,
  value_error, ◌>>=◌, ◌>>◌, raise_if, length, PyEq, ◌==◌, if◌then◌else◌, nat_eq,
}
use regime_detection.Prelude.Int.{ℤ, pos, ltb_ℤ, leb_ℤ, int_eq, pos_part}
use regime_detection.Prelude.Dict.{get_or, has_key}
use regime_detection.DataQuality.{DataQuality, quality_forces_unknown}
use regime_detection.Hysteresis.{
  Settings, Memory, step, active_of, check_escalation, apply_per_label_asymmetric_hysteresis,
}

-- The loop's variables.
pub record GapMemory {ℓ} (L : Type ℓ) : Type ℓ where
  pub data_gap_count : ℕ
  pub stable_label : Option L
  pub pending_label : Option L
  pub pending_count : ℕ
  pub last_known_stable : Option L
  pub last_known_active : Option L

-- What is appended for one session.
pub record Shown {ℓ} (L : Type ℓ) : Type ℓ where
  pub stable : L
  pub active : L
  pub frozen : Bool

module _ {ℓ} {L : Type ℓ} where
  abbrev pub fresh_memory : GapMemory L
  fresh_memory = record {
    data_gap_count = 0;
    stable_label = none;
    pending_label = none;
    pending_count = 0;
    last_known_stable = none;
    last_known_active = none;
  }

  abbrev pub shown : L → L → Bool → Shown L
  shown stable active frozen = record { stable = stable; active = active; frozen = frozen }

  -- The state after the freeze is exhausted; `n` is the length of the gap so far.
  abbrev pub reset_to : L → ℕ → GapMemory L → GapMemory L
  reset_to unknown n g = record g {
    data_gap_count = n;
    stable_label = some unknown;
    pending_label = none;
    pending_count = 0;
    last_known_stable = none;
    last_known_active = none;
  }

abbrev pub max_ℤ : ℤ → ℤ → ℤ
max_ℤ a b = if ltb_ℤ a b then b else a

module _ {ℓ} {L : Type ℓ} ⦃e : PyEq L⦄ where
  -- The freeze lasts at least `max_unknown_freeze_days`, and longer where the held label's own
  -- de-escalation threshold is.
  unfoldable pub hold_limit : Settings L → ℤ → L → ℤ
  hold_limit s max_freeze held =
      let threshold = get_or s.deescalation_days_by_label held s.default_deescalation_days in
      if ltb_ℤ (pos 0) threshold
      then max_ℤ max_freeze (pos (pos_part threshold - 1))
      else max_freeze

  -- A session whose data quality forces `unknown`. Without a last known label there is nothing to
  -- hold, so the limit does not matter.
  hold : Settings L → ℤ → L → ℕ → Option L → Option L → GapMemory L → GapMemory L × Shown L
  unfolding hold_limit
  hold s max_freeze unknown n (some stable) (some active) g =
      if leb_ℤ (pos n) (hold_limit s max_freeze stable)
      then (record g { data_gap_count = n }, shown stable active true)
      else (reset_to unknown n g, shown unknown unknown false)
  hold s max_freeze unknown n _ _ g = (reset_to unknown n g, shown unknown unknown false)

  unfoldable pub gap_step : Settings L → ℤ → L → GapMemory L → GapMemory L × Shown L
  unfolding hold
  gap_step s max_freeze unknown g =
      hold s max_freeze unknown (g.data_gap_count + 1) g.last_known_stable g.last_known_active g

  -- The memory after a usable session: the first label is taken as it is, later ones by `move`.
  usable_memory : Settings L → Option L → L → GapMemory L → Result (Memory L)
  usable_memory s none raw g = ok (record {
    stable_label = raw;
    pending_label = g.pending_label;
    pending_count = g.pending_count;
  })
  usable_memory s (some stable) raw g =
      step s
        (record {
          stable_label = stable;
          pending_label = g.pending_label;
          pending_count = g.pending_count;
        })
        raw

  abbrev remember : L → L → Memory L → L → GapMemory L → GapMemory L
  remember unknown raw m active g =
      let known = not (raw == unknown) && not (m.stable_label == unknown) in
      record {
        data_gap_count = 0;
        stable_label = some m.stable_label;
        pending_label = m.pending_label;
        pending_count = m.pending_count;
        last_known_stable = if known then some m.stable_label else g.last_known_stable;
        last_known_active = if known then some active else g.last_known_active;
      }

  -- A session with usable data.
  unfoldable pub usable_step : Settings L → L → L → GapMemory L → Result (GapMemory L × Shown L)
  unfolding usable_memory
  usable_step s unknown raw g = do
    m ← usable_memory s g.stable_label raw g
    active ← active_of s raw m.stable_label
    ok (remember unknown raw m active g, shown m.stable_label active false)

  session : Bool → Settings L → ℤ → L → L → GapMemory L → Result (GapMemory L × Shown L)
  session true s max_freeze unknown raw g = ok (gap_step s max_freeze unknown g)
  session false s max_freeze unknown raw g = usable_step s unknown raw g

  -- The loop over the labels zipped with whether their data quality forces `unknown`.
  unfoldable pub run_gaps :
      Settings L → ℤ → L → GapMemory L → List (L × Bool) → Result (List (Shown L))
  unfolding session
  run_gaps s max_freeze unknown g [] = ok []
  run_gaps s max_freeze unknown g ((raw, forced) ∷ rows) = do
    r ← session forced s max_freeze unknown raw g
    rest ← run_gaps s max_freeze unknown r.0 rows
    ok (r.1 ∷ rest)

  abbrev pub zip_rows {κ} : {F : Type κ} → List L → List (DataQuality F) → List (L × Bool)
  zip_rows [] qs = []
  zip_rows (r ∷ rs) [] = []
  zip_rows (r ∷ rs) (q ∷ qs) = (r, quality_forces_unknown q) ∷ zip_rows rs qs

  -- Pairs the lists of the plain loop into rows that are not frozen.
  abbrev pub unfrozen : List L → List L → List (Shown L)
  unfrozen (s ∷ ss) (a ∷ as') = shown s a false ∷ unfrozen ss as'
  unfrozen _ _ = []

  -- With no freeze the plain loop runs; otherwise the labels must not be empty and must rank
  -- `unknown`.
  frozen_run : Settings L → ℤ → L → List L → List (L × Bool) → Result (List (Shown L))
  frozen_run s max_freeze unknown raws rows =
      if max_freeze == pos 0
      then (do out ← apply_per_label_asymmetric_hysteresis s raws; ok (unfrozen out.0 out.1))
      else (do
        raise_if (length raws == 0) value_error
        raise_if (not (has_key s.risk_rank unknown)) value_error
        run_gaps s max_freeze unknown fresh_memory rows)

  unfoldable pub apply_data_quality_aware_hysteresis {κ} :
      {F : Type κ} → Settings L → ℤ → L → List L → List (DataQuality F) → Result (List (Shown L))
  unfolding frozen_run
  apply_data_quality_aware_hysteresis s max_freeze unknown raws qualities = do
    raise_if (ltb_ℤ max_freeze (pos 0)) value_error
    raise_if (not (length raws == length qualities)) value_error
    raise_if (ltb_ℤ s.default_escalation_days (pos 1)) value_error
    check_escalation s
    frozen_run s max_freeze unknown raws (zip_rows raws qualities)
