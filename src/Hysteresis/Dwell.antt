-- ===== src/Hysteresis/Dwell.antt =====
-- When a different label takes effect, and what the pending label remembers.
use regime_detection.Prelude.Dict.{lookup, get_or}
use regime_detection.Prelude.Int.{ℤ, pos_part, ltb_ℤ, int_eq}
use regime_detection.Prelude.{
  ℕ, zero, suc, ◌+◌, max, ◌≡◌, refl, ap, ◌∙◌, true, false, Option, none, some, List, ◌∷◌, ◌++◌,
  arith, leb, if◌then◌else◌, PyEq, ◌==◌, nat_eq, string_eq, is_some_of, ==_refl, replicate, ok,
  le→leb, lt→leb,
}
use regime_detection.Hysteresis.{
  Settings, Memory, settle, count_of, escalate, deescalate, move, step, active_of, run,
}

module _ {L : Type 0} ⦃e : PyEq L⦄ where
  -- The configured days before `raw` replaces `stable`; fewer than one day is one day.
  abbrev pub switch_days : Settings L → ℤ → ℤ → L → L → ℕ
  switch_days s raw_rank stable_rank raw stable = max 1 (
      pos_part (
        if ltb_ℤ stable_rank raw_rank
        then get_or s.escalation_days_by_label raw s.default_escalation_days
        else get_or s.deescalation_days_by_label stable s.default_deescalation_days))

  -- One session of a label other than the stable one.
  pub move_different :
      (s : Settings L) (a b : ℤ) (raw : L) (m : Memory L)
      → (raw == m.stable_label) ≡ false
      → move s a b raw m ≡ (
          if leb (switch_days s a b raw m.stable_label) (count_of raw m)
          then settle raw
          else record m { pending_label = some raw; pending_count = count_of raw m })
  unfolding move escalate deescalate
  move_different s a b raw m h = ground arith

  -- One session of the stable label itself.
  pub move_same :
      (s : Settings L) (a : ℤ) (raw : L) (m : Memory L)
      → (raw == m.stable_label) ≡ true
      → move s a a raw m ≡ record m { pending_label = none; pending_count = 0 }
  unfolding move escalate deescalate
  move_same s a raw m h = ground arith

  pub step-eq-move :
      (s : Settings L) (m : Memory L) (raw : L) (a b : ℤ)
      → lookup s.risk_rank raw ≡ some a
      → lookup s.risk_rank m.stable_label ≡ some b
      → step s m raw ≡ ok (move s a b raw m)
  unfolding step
  step-eq-move s m raw a b ha hb = rw (ha, hb) refl

  active_of-eq :
      (s : Settings L) (raw stable : L) (a b : ℤ)
      → lookup s.risk_rank raw ≡ some a
      → lookup s.risk_rank stable ≡ some b
      → active_of s raw stable ≡ ok (if ltb_ℤ b a then raw else stable)
  unfolding active_of
  active_of-eq s raw stable a b ha hb = rw (ha, hb) refl

  active_of_self :
      (s : Settings L) (raw : L) (a : ℤ)
      → lookup s.risk_rank raw ≡ some a
      → active_of s raw raw ≡ ok raw
  active_of_self s raw a ha = rw (active_of-eq s raw raw a a ha ha) (ground arith)

  run-cons :
      (s : Settings L) (m m' : Memory L) (raw active : L) (raws : List L) (out : List L × List L)
      → step s m raw ≡ ok m'
      → active_of s raw m'.stable_label ≡ ok active
      → run s m' raws ≡ ok out
      → run s m (raw ∷ raws) ≡ ok (m'.stable_label ∷ out.0, active ∷ out.1)
  unfolding run
  run-cons s m m' raw active raws out h₁ h₂ h₃ = rw (h₁, h₂, h₃) refl

  -- Once the label is the stable one it stays.
  run_settled :
      (s : Settings L) (raw : L) (a : ℤ) (p : Option L) (c k : ℕ)
      → lookup s.risk_rank raw ≡ some a
      → run s
          (record { stable_label = raw; pending_label = p; pending_count = c })
          (replicate k raw)
        ≡ ok (replicate k raw, replicate k raw)
  unfolding run
  run_settled s raw a p c zero ha = refl
  run_settled s raw a p c (suc k) ha =
      let m : Memory L = record { stable_label = raw; pending_label = p; pending_count = c } in
      let same = step-eq-move s m raw a a ha ha ∙ ap ok (move_same s a raw m (==_refl raw)) in
      run-cons s m (settle raw) raw raw (replicate k raw) (replicate k raw, replicate k raw) same
        (active_of_self s raw a ha) (run_settled s raw a none 0 k ha)

  run_switching :
      (s : Settings L) (raw : L) (a b : ℤ) (m : Memory L) (c d k : ℕ)
      → lookup s.risk_rank raw ≡ some a
      → lookup s.risk_rank m.stable_label ≡ some b
      → (raw == m.stable_label) ≡ false
      → count_of raw m ≡ suc c
      → switch_days s a b raw m.stable_label ≡ c + suc d
      → run s m (replicate d raw ++ replicate (suc k) raw)
        ≡ ok (
          replicate d m.stable_label ++ replicate (suc k) raw,
          replicate d (if ltb_ℤ b a then raw else m.stable_label) ++ replicate (suc k) raw,
        )
  run_switching s raw a b m c zero k ha hb ne hc hd =
      let now : leb (switch_days s a b raw m.stable_label) (count_of raw m) ≡ true =
        le→leb _ _ (omega arith) in
      run-cons s m (settle raw) raw raw (replicate k raw) (replicate k raw, replicate k raw)
        (step-eq-move s m raw a b ha hb ∙ ap ok (move_different s a b raw m ne ∙ rw now))
        (active_of_self s raw a ha) (run_settled s raw a none 0 k ha)
  run_switching s raw a b m c (suc d) k ha hb ne hc hd =
      let later : leb (switch_days s a b raw m.stable_label) (count_of raw m) ≡ false =
        lt→leb _ _ (omega arith) in
      let m' = record m { pending_label = some raw; pending_count = count_of raw m } in
      let again : count_of raw m' ≡ suc (suc c) = rw (==_refl raw) (omega arith) in
      run-cons s m m' raw (if ltb_ℤ b a then raw else m.stable_label) _ _
        (step-eq-move s m raw a b ha hb ∙ ap ok (move_different s a b raw m ne ∙ rw later))
        (active_of-eq s raw m.stable_label a b ha hb)
        (run_switching s raw a b m' (suc c) d k ha hb ne again (omega arith))

  -- Persistence is exact. If a label other than the stable one, and not already pending, is seen
  -- without interruption, and n + 1 days are configured for the change, then the stable label
  -- stays for the first n sessions and is the new one from session n + 1 on. Meanwhile the active
  -- label is the riskier of the two, and the stable one where the ranks are equal.
  pub run_switches_exactly :
      (s : Settings L) (raw : L) (a b : ℤ) (m : Memory L) (n k : ℕ)
      → lookup s.risk_rank raw ≡ some a
      → lookup s.risk_rank m.stable_label ≡ some b
      → (raw == m.stable_label) ≡ false
      → is_some_of m.pending_label raw ≡ false
      → switch_days s a b raw m.stable_label ≡ suc n
      → run s m (replicate n raw ++ replicate (suc k) raw)
        ≡ ok (
          replicate n m.stable_label ++ replicate (suc k) raw,
          replicate n (if ltb_ℤ b a then raw else m.stable_label) ++ replicate (suc k) raw,
        )
  run_switches_exactly s raw a b m n k ha hb ne fresh days =
      run_switching s raw a b m 0 n k ha hb ne (rw fresh refl) (omega arith)
