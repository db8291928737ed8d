-- ===== src/Hysteresis/Gap/Agrees.antt =====
-- Without data gaps the quality-aware loop is the plain loop.
use regime_detection.Prelude.Dict.{lookup, has_key}
use regime_detection.Prelude.Int.{ℤ, pos, ltb_ℤ, int_eq}
use regime_detection.Prelude.{
  ℕ, zero, suc, ◌≡◌, refl, ap, ◌∙◌, Bool, true, false, not, some, List, [], ◌∷◌, map, arith, PyEq,
  ◌==◌, nat_eq, string_eq, ==_refl, length, All, Result, ok, err, ◌>>=◌,
}
use regime_detection.Hysteresis.{
  Settings, Memory, settle, step, active_of, run, apply_per_label_asymmetric_hysteresis,
  check_settings, any_days_below,
}
use regime_detection.Hysteresis.Gap.{
  GapMemory, Shown, shown, fresh_memory, session, usable_memory, usable_step, run_gaps, unfrozen,
  remember, frozen_run, apply_data_quality_aware_hysteresis, zip_rows,
}
use regime_detection.Hysteresis.Dwell.{step-eq-move, move_same}
use regime_detection.DataQuality.{DataQuality, quality_forces_unknown}

module _ {L : Type 0} ⦃e : PyEq L⦄ where
  abbrev pub usable_rows : List L → List (L × Bool)
  usable_rows = map (λ r. (r, false))

  -- The two loops are in the same hysteresis state.
  abbrev pub Same : Memory L → GapMemory L → Type 0
  Same m g =
      (g.stable_label ≡ some m.stable_label)
      × (g.pending_label ≡ m.pending_label)
      × (g.pending_count ≡ m.pending_count)

  abbrev pub as_shown : Result (List L × List L) → Result (List (Shown L))
  as_shown r = r >>= λ out. ok (unfrozen out.0 out.1)

  usable_step-eq :
      (s : Settings L) (unknown raw : L) (m : Memory L) (g : GapMemory L)
      → Same m g
      → usable_step s unknown raw g ≡ (do
        m' ← step s m raw
        active ← active_of s raw m'.stable_label
        ok (remember unknown raw m' active g, shown m'.stable_label active false))
  unfolding usable_step usable_memory
  usable_step-eq s unknown raw m g same = rw (same.0, same.1, same.2) refl

  abbrev with_shown : GapMemory L → Shown L → GapMemory L × Shown L
  with_shown g out = (g, out)

  -- The rest of a session, once the step's result is known, in the two loops.
  rest_agrees :
      (a : Result L) (m : Memory L) (next : L → GapMemory L)
      (more : GapMemory L → Result (List (Shown L))) (tail : Result (List L × List L))
      → ((x : L) → more (next x) ≡ as_shown tail)
      → ((a >>= λ x. ok (with_shown (next x) (shown m.stable_label x false))) >>= λ p.
          more p.0 >>= λ rest. ok (p.1 ∷ rest))
        ≡ as_shown (a >>= λ x. tail >>= λ out. ok (m.stable_label ∷ out.0, x ∷ out.1))
  rest_agrees (err x) m next more tail h = refl
  rest_agrees (ok a) m next more (err x) h = rw (h a)
  rest_agrees (ok a) m next more (ok out) h = rw (h a)

  session_agrees :
      (r : Result (Memory L)) (act : Memory L → Result L) (next : Memory L → L → GapMemory L)
      (more : GapMemory L → Result (List (Shown L))) (tail : Memory L → Result (List L × List L))
      → ((m : Memory L) (x : L) → more (next m x) ≡ as_shown (tail m))
      → ((r >>= λ m. act m >>= λ x. ok (with_shown (next m x) (shown m.stable_label x false)))
          >>= λ p. more p.0 >>= λ rest. ok (p.1 ∷ rest))
        ≡ as_shown
            (r >>= λ m. act m >>= λ x. tail m >>= λ out. ok (m.stable_label ∷ out.0, x ∷ out.1))
  session_agrees (err x) act next more tail h = refl
  session_agrees (ok m) act next more tail h = rest_agrees (act m) m (next m) more (tail m) (h m)

  run_gaps-eq-run :
      (s : Settings L) (max_freeze : ℤ) (unknown : L) (m : Memory L) (g : GapMemory L)
      (raws : List L)
      → Same m g
      → run_gaps s max_freeze unknown g (usable_rows raws) ≡ as_shown (run s m raws)
  unfolding run_gaps run session
  run_gaps-eq-run s max_freeze unknown m g [] same = refl
  run_gaps-eq-run s max_freeze unknown m g (raw ∷ raws) same =
      rw (usable_step-eq s unknown raw m g same) (
        session_agrees (step s m raw) (λ m'. active_of s raw m'.stable_label)
          (λ m' a. remember unknown raw m' a g)
          (λ g'. run_gaps s max_freeze unknown g' (usable_rows raws)) (λ m'. run s m' raws)
          (λ m' a.
            run_gaps-eq-run s max_freeze unknown m' (remember unknown raw m' a g) raws
              (refl, refl, refl)))

  -- The plain loop steps from its own first label, which changes nothing.
  step_self :
      (s : Settings L) (raw : L) (a : ℤ)
      → lookup s.risk_rank raw ≡ some a
      → step s (settle raw) raw ≡ ok (settle raw)
  step_self s raw a ha =
      step-eq-move s (settle raw) raw a a ha ha
      ∙ ap ok (move_same s a raw (settle raw) (==_refl raw))

  zip_usable :
      (raws : List L) {F : Type 0} (qs : List (DataQuality F))
      → length raws ≡ length qs
      → All (λ q. quality_forces_unknown q ≡ false) qs
      → zip_rows raws qs ≡ usable_rows raws
  zip_usable [] qs h us = refl
  zip_usable (r ∷ rs) [] h us = absurd (omega arith)
  zip_usable (r ∷ rs) (q ∷ qs) h (u, us) = rw (u, zip_usable rs qs (omega arith) us)

  -- The first session: one loop has no label yet, the other starts from the label itself.
  first_session :
      (s : Settings L) (max_freeze : ℤ) (unknown raw : L) (a : ℤ) (raws : List L)
      → lookup s.risk_rank raw ≡ some a
      → run_gaps s max_freeze unknown fresh_memory (usable_rows (raw ∷ raws))
        ≡ as_shown (run s (settle raw) (raw ∷ raws))
  unfolding run_gaps run session usable_step usable_memory
  first_session s max_freeze unknown raw a raws ha = rw (step_self s raw a ha) (
      rest_agrees (active_of s raw raw) (settle raw)
        (λ x. remember unknown raw (settle raw) x fresh_memory)
        (λ g. run_gaps s max_freeze unknown g (usable_rows raws)) (run s (settle raw) raws)
        (λ x.
          run_gaps-eq-run s max_freeze unknown (settle raw)
            (remember unknown raw (settle raw) x fresh_memory) raws (refl, refl, refl)))

  plain-eq-run :
      (s : Settings L) (raw : L) (raws : List L)
      → check_settings s ≡ ok tt
      → apply_per_label_asymmetric_hysteresis s (raw ∷ raws) ≡ run s (settle raw) (raw ∷ raws)
  unfolding apply_per_label_asymmetric_hysteresis
  plain-eq-run s raw raws checked = rw checked

  -- What a passed check says.
  check_settings_parts :
      (s : Settings L)
      → check_settings s ≡ ok tt
      → (ltb_ℤ s.default_escalation_days (pos 1) ≡ false)
        × (any_days_below (pos 1) s.escalation_days_by_label ≡ false)
  check_settings_parts s checked = ground arith

  frozen_run-eq-plain :
      (s : Settings L) (n : ℕ) (unknown raw : L) (a : ℤ) (raws : List L)
      → check_settings s ≡ ok tt
      → lookup s.risk_rank raw ≡ some a
      → has_key s.risk_rank unknown ≡ true
      → frozen_run s (pos n) unknown (raw ∷ raws) (usable_rows (raw ∷ raws))
        ≡ as_shown (apply_per_label_asymmetric_hysteresis s (raw ∷ raws))
  unfolding frozen_run
  frozen_run-eq-plain s zero unknown raw a raws checked ha ranked = refl
  frozen_run-eq-plain s (suc n) unknown raw a raws checked ha ranked =
      let positive : (pos (suc n) == pos 0) ≡ false = ground arith in
      let counted : (suc (length raws) == 0) ≡ false = ground arith in
      rw (positive, counted, ranked, first_session s (pos (suc n)) unknown raw a raws ha)
        (rw (plain-eq-run s raw raws checked))

  -- Without a session of unusable data the quality-aware loop returns the labels of the plain loop,
  -- none of them frozen, whatever the freeze is; the settings pass the plain loop's checks, the
  -- first label has a rank and, where there is a freeze, so has `unknown`.
  pub apply_data_quality_aware-eq-plain :
      (s : Settings L) (n : ℕ) (unknown raw : L) (a : ℤ) (raws : List L) {F : Type 0}
      (qs : List (DataQuality F))
      → check_settings s ≡ ok tt
      → lookup s.risk_rank raw ≡ some a
      → has_key s.risk_rank unknown ≡ true
      → length (raw ∷ raws) ≡ length qs
      → All (λ q. quality_forces_unknown q ≡ false) qs
      → apply_data_quality_aware_hysteresis s (pos n) unknown (raw ∷ raws) qs
        ≡ as_shown (apply_per_label_asymmetric_hysteresis s (raw ∷ raws))
  unfolding apply_data_quality_aware_hysteresis
  apply_data_quality_aware-eq-plain s n unknown raw a raws qs checked ha ranked same usable =
      let (default_ok, days_ok) = check_settings_parts s checked in
      let sign : ltb_ℤ (pos n) (pos 0) ≡ false = ground arith in
      let lengths : not (suc (length raws) == length qs) ≡ false = ground arith in
      rw (sign, lengths, default_ok, days_ok, zip_usable (raw ∷ raws) qs same usable)
        (frozen_run-eq-plain s n unknown raw a raws checked ha ranked)
