-- ===== src/Hysteresis/Gap/Bound.antt =====
-- How long a data gap holds the last known labels.
use regime_detection.Prelude.Dict.{get_or}
use native.Mathlib.Nat.{suc-min-suc, suc-sub-suc}
use regime_detection.Prelude.Int.{ℤ, pos, pos_part, int_eq}
use regime_detection.Prelude.{
  ℕ, zero, suc, ◌+◌, ◌-◌, ◌≤◌, ◌<◌, min, max, ◌≡◌, refl, ap, ◌∙◌, Bool, true, false, none, some,
  List, [], ◌∷◌, ◌++◌, map, arith, PyEq, nat_eq, string_eq, length, replicate, ok,
}
use regime_detection.Hysteresis.{Settings}
use regime_detection.Hysteresis.Gap.{
  GapMemory, Shown, shown, reset_to, hold_limit, hold, gap_step, session, run_gaps,
}

-- One copy of `held` for each item while the budget lasts, and `lost` after it.
abbrev spend {ℓ κ} : {A : Type ℓ} {B : Type κ} → ℕ → B → B → List A → List B
spend zero held lost [] = []
spend zero held lost (x ∷ xs) = lost ∷ replicate (length xs) lost
spend (suc b) held lost [] = []
spend (suc b) held lost (x ∷ xs) = held ∷ spend b held lost xs

spend-eq {ℓ κ} :
    {A : Type ℓ} {B : Type κ} (b : ℕ) (held lost : B) (xs : List A)
    → spend b held lost xs ≡ replicate (min (length xs) b) held ++ replicate (length xs - b) lost
spend-eq zero held lost [] = refl
spend-eq (suc b) held lost [] =
    let none_left : 0 - suc b ≡ 0 = omega arith in
    let none_held : min 0 (suc b) ≡ 0 = omega arith in rw (none_left, none_held)
spend-eq zero held lost (x ∷ xs) =
    let none_held : min (suc (length xs)) 0 ≡ 0 = omega arith in
    let all_left : suc (length xs) - 0 ≡ suc (length xs) = omega arith in rw (none_held, all_left)
spend-eq (suc b) held lost (x ∷ xs) =
    rw (suc-min-suc, suc-sub-suc) (ap (◌∷◌ held) (spend-eq b held lost xs))

module _ {L : Type 0} ⦃e : PyEq L⦄ where
  -- Sessions whose data quality forces `unknown`, whatever their raw labels.
  abbrev pub forced_rows : List L → List (L × Bool)
  forced_rows = map (λ r. (r, true))

  -- The labels held by the memory, if both are.
  abbrev pub Remembers : L → L → GapMemory L → Type 0
  Remembers stable active g =
      (g.last_known_stable ≡ some stable) × (g.last_known_active ≡ some active)

  hold_limit-eq-max :
      (s : Settings L) (n : ℕ) (held : L)
      → hold_limit s (pos n) held
        ≡ pos (
            max n
              (pos_part (get_or s.deescalation_days_by_label held s.default_deescalation_days) - 1))
  unfolding hold_limit
  hold_limit-eq-max s n held = ground arith

  gap_step_held :
      (s : Settings L) (max_freeze : ℤ) (unknown stable active : L) (g : GapMemory L) (h : ℕ)
      → hold_limit s max_freeze stable ≡ pos h
      → Remembers stable active g
      → g.data_gap_count < h
      → gap_step s max_freeze unknown g
        ≡ (record g { data_gap_count = g.data_gap_count + 1 }, shown stable active true)
  unfolding gap_step hold
  gap_step_held s max_freeze unknown stable active g h limit held lt =
      rw (held.0, held.1, limit) (ground arith)

  gap_step_over :
      (s : Settings L) (max_freeze : ℤ) (unknown stable active : L) (g : GapMemory L) (h : ℕ)
      → hold_limit s max_freeze stable ≡ pos h
      → Remembers stable active g
      → h ≤ g.data_gap_count
      → gap_step s max_freeze unknown g
        ≡ (reset_to unknown (g.data_gap_count + 1) g, shown unknown unknown false)
  unfolding gap_step hold
  gap_step_over s max_freeze unknown stable active g h limit held le =
      rw (held.0, held.1, limit) (ground arith)

  gap_step_empty :
      (s : Settings L) (max_freeze : ℤ) (unknown : L) (g : GapMemory L)
      → g.last_known_stable ≡ none
      → gap_step s max_freeze unknown g
        ≡ (reset_to unknown (g.data_gap_count + 1) g, shown unknown unknown false)
  unfolding gap_step hold
  gap_step_empty s max_freeze unknown g empty = ground arith

  run_gaps-forced :
      (s : Settings L) (max_freeze : ℤ) (unknown raw : L) (g g' : GapMemory L) (out : Shown L)
      (rows : List (L × Bool)) (rest : List (Shown L))
      → gap_step s max_freeze unknown g ≡ (g', out)
      → run_gaps s max_freeze unknown g' rows ≡ ok rest
      → run_gaps s max_freeze unknown g ((raw, true) ∷ rows) ≡ ok (out ∷ rest)
  unfolding run_gaps session
  run_gaps-forced s max_freeze unknown raw g g' out rows rest h₁ h₂ = rw (h₁, h₂) refl

  run_exhausted :
      (s : Settings L) (max_freeze : ℤ) (unknown : L) (g : GapMemory L) (raws : List L)
      → g.last_known_stable ≡ none
      → run_gaps s max_freeze unknown g (forced_rows raws)
        ≡ ok (replicate (length raws) (shown unknown unknown false))
  unfolding run_gaps
  run_exhausted s max_freeze unknown g [] empty = refl
  run_exhausted s max_freeze unknown g (raw ∷ raws) empty =
      run_gaps-forced s max_freeze unknown raw g _ _ (forced_rows raws) _
        (gap_step_empty s max_freeze unknown g empty)
        (run_exhausted s max_freeze unknown (reset_to unknown (g.data_gap_count + 1) g) raws refl)

  run_holding :
      (s : Settings L) (max_freeze : ℤ) (unknown stable active : L) (g : GapMemory L) (h b : ℕ)
      (raws : List L)
      → hold_limit s max_freeze stable ≡ pos h
      → Remembers stable active g
      → g.data_gap_count + b ≡ h
      → run_gaps s max_freeze unknown g (forced_rows raws)
        ≡ ok (spend b (shown stable active true) (shown unknown unknown false) raws)
  unfolding run_gaps
  run_holding s max_freeze unknown stable active g h zero [] limit held left = refl
  run_holding s max_freeze unknown stable active g h (suc b) [] limit held left = refl
  run_holding s max_freeze unknown stable active g h zero (raw ∷ raws) limit held left =
      run_gaps-forced s max_freeze unknown raw g _ _ (forced_rows raws) _
        (gap_step_over s max_freeze unknown stable active g h limit held (omega arith))
        (run_exhausted s max_freeze unknown (reset_to unknown (g.data_gap_count + 1) g) raws refl)
  run_holding s max_freeze unknown stable active g h (suc b) (raw ∷ raws) limit held left =
      run_gaps-forced s max_freeze unknown raw g _ _ (forced_rows raws) _
        (gap_step_held s max_freeze unknown stable active g h limit held (omega arith))
        (run_holding s max_freeze unknown stable active
          (record g { data_gap_count = g.data_gap_count + 1 }) h b raws limit held (omega arith))

  -- A data gap holds the last known labels for exactly the hold limit of the held stable label. For
  -- a gap of any length the first min(length, limit) sessions show them frozen, every later one
  -- shows `unknown` unfrozen, whatever the raw labels of the gap are. The limit is the larger of
  -- `max_unknown_freeze_days` and the held label's de-escalation threshold less one.
  pub gap_holds_then_unknown :
      (s : Settings L) (n : ℕ) (unknown stable active : L) (g : GapMemory L) (raws : List L)
      → Remembers stable active g
      → g.data_gap_count ≡ 0
      → let threshold = get_or s.deescalation_days_by_label stable s.default_deescalation_days in
        let limit = max n (pos_part threshold - 1) in
        run_gaps s (pos n) unknown g (forced_rows raws)
        ≡ ok (
            replicate (min (length raws) limit) (shown stable active true)
            ++ replicate (length raws - limit) (shown unknown unknown false))
  gap_holds_then_unknown s n unknown stable active g raws held start =
      let threshold = get_or s.deescalation_days_by_label stable s.default_deescalation_days in
      let limit = max n (pos_part threshold - 1) in
      run_holding s (pos n) unknown stable active g limit limit raws (hold_limit-eq-max s n stable)
        held (omega arith)
      ∙ ap ok (spend-eq limit _ _ raws)
