-- ===== src/Hysteresis/Trailing.antt =====
-- What the pending label stands for: the last sessions were all that label.
use regime_detection.Prelude.Dict.{lookup, get}
use regime_detection.Prelude.Int.{ℤ, int_eq}
use regime_detection.Prelude.{
  ℕ, zero, suc, ◌+◌, ◌≤◌, ◌<◌, ◌≡◌, refl, sym, ap, ◌∙◌, ◌≢◌, inl, inr, true, false, Option, none,
  some, List, [], ◌∷◌, ◌++◌, arith, leb, if◌then◌else◌, leb→le, Bool-cases, PyEq, ◌==◌, nat_eq,
  string_eq, is_some_of, replicate, Result, ok, ◌>>=◌, bind_ok, ok-injective,
}
use regime_detection.Hysteresis.{Settings, Memory, settle, count_of, move, step}
use mathlib.Core.List.{append-nil}
use mathlib.Core.Option.{some-injective}
use regime_detection.Hysteresis.Dwell.{switch_days, move_same, move_different, step-eq-move}

module _ {L : Type 0} ⦃e : PyEq L⦄ where
  -- The memory after some sessions.
  unfoldable pub memory_after : Settings L → Memory L → List L → Result (Memory L)
  memory_after s m [] = ok m
  memory_after s m (raw ∷ raws) = step s m raw >>= λ m'. memory_after s m' raws

  abbrev pub Trails : List L → Option L → ℕ → Type 0
  Trails seen none n = n ≡ 0
  Trails seen (some p) n = (0 < n) × ((before : List L) × (seen ≡ before ++ replicate n p))

  pub record IsTrailing (seen : List L) (m : Memory L) : Type 0 where
    pub trails : Trails seen m.pending_label m.pending_count
    pub differs : is_some_of m.pending_label m.stable_label ≡ false

  replicate-snoc :
      (before : List L) (n : ℕ) (p : L)
      → (before ++ replicate n p) ++ (p ∷ []) ≡ before ++ replicate (suc n) p
  replicate-snoc [] zero p = refl
  replicate-snoc [] (suc n) p = ap (◌∷◌ p) (replicate-snoc [] n p)
  replicate-snoc (x ∷ before) n p = ap (◌∷◌ x) (replicate-snoc before n p)

  append-snoc :
      (seen : List L) (raw : L) (raws : List L)
      → (seen ++ (raw ∷ [])) ++ raws ≡ seen ++ (raw ∷ raws)
  append-snoc [] raw raws = refl
  append-snoc (x ∷ seen) raw raws = ap (◌∷◌ x) (append-snoc seen raw raws)

  settle-IsTrailing : (seen : List L) (raw : L) → IsTrailing seen (settle raw)
  settle-IsTrailing seen raw = record { trails = refl; differs = refl }

  -- A label that joins the pending ones, or starts over.
  count-Trails :
      (seen : List L) (raw : L) (p : Option L) (n : ℕ)
      → Trails seen p n
      → Trails (seen ++ (raw ∷ [])) (some raw) (if is_some_of p raw then n + 1 else 1)
  count-Trails seen raw none n h = (omega arith, (seen, refl))
  count-Trails seen raw (some q) n (_, (before, h)) = elim (Bool-cases (q == raw)) [
    | inl same ↦
        let more : n + 1 ≡ suc n = omega arith in
        let q-eq-raw : q ≡ raw = (e.eq_test_iff q raw).0 same in
        rw (same, more, h, q-eq-raw) (omega arith, (before, replicate-snoc before n raw))
    | inr other ↦ rw other (omega arith, (seen, refl))
  ]

  move-IsTrailing :
      (s : Settings L) (a b : ℤ) (seen : List L) (raw : L) (m : Memory L)
      → ((raw == m.stable_label) ≡ true → a ≡ b)
      → IsTrailing seen m
      → IsTrailing (seen ++ (raw ∷ [])) (move s a b raw m)
  move-IsTrailing s a b seen raw m same h = elim (Bool-cases (raw == m.stable_label)) [
    | inl eq ↦ rw (same eq, move_same s b raw m eq) (record { trails = refl; differs = refl })
    | inr ne ↦
        rw (move_different s a b raw m ne)
          (elim (Bool-cases (leb (switch_days s a b raw m.stable_label) (count_of raw m))) [
            | inl now ↦ rw now (settle-IsTrailing _ raw)
            | inr later ↦ rw later (record {
              trails = count-Trails seen raw m.pending_label m.pending_count h.trails;
              differs = ne;
            })
          ])
  ]

  step-IsTrailing :
      (s : Settings L) (seen : List L) (raw : L) (m m' : Memory L)
      → IsTrailing seen m
      → step s m raw ≡ ok m'
      → IsTrailing (seen ++ (raw ∷ [])) m'
  unfolding step
  step-IsTrailing s seen raw m m' h stepped =
      let (a, ha, h₁) = bind_ok (get s.risk_rank raw) _ stepped in
      let (b, hb, h₂) = bind_ok (get s.risk_rank m.stable_label) _ h₁ in
      let one_rank : (raw == m.stable_label) ≡ true → a ≡ b = λ eq.
        ok-injective
          (sym ha ∙ ap (get s.risk_rank) ((e.eq_test_iff raw m.stable_label).0 eq) ∙ hb) in
      rw (← ok-injective h₂) (move-IsTrailing s a b seen raw m one_rank h)

  -- Wherever the loop stands, its pending label and count describe the sessions just seen: the last
  -- `pending_count` raw labels are all the pending label, which is not the stable one, and nothing
  -- is counted where nothing is pending.
  pub memory_after-IsTrailing :
      (s : Settings L) (seen : List L) (m m' : Memory L) (raws : List L)
      → IsTrailing seen m
      → memory_after s m raws ≡ ok m'
      → IsTrailing (seen ++ raws) m'
  unfolding memory_after
  memory_after-IsTrailing s seen m m' [] h e' = rw (append-nil, ← ok-injective e') h
  memory_after-IsTrailing s seen m m' (raw ∷ raws) h e' =
      let (next, stepped, rest) = bind_ok (step s m raw) _ e' in
      rw (← append-snoc seen raw raws) (
        memory_after-IsTrailing s (seen ++ (raw ∷ [])) next m' raws
          (step-IsTrailing s seen raw m next h stepped) rest)

  -- The same for one session from any state that describes what was seen.
  change_needs_run :
      (s : Settings L) (seen : List L) (raw : L) (m m' : Memory L) (a b : ℤ)
      → IsTrailing seen m
      → m' ≡ move s a b raw m
      → ((raw == m.stable_label) ≡ true → a ≡ b)
      → m'.stable_label ≢ m.stable_label
      → (m'.stable_label ≡ raw)
        × ((n : ℕ) × (switch_days s a b raw m.stable_label ≤ n)
            × ((before : List L) × (seen ++ (raw ∷ []) ≡ before ++ replicate n raw)))
  change_needs_run s seen raw m m' a b h moved one_rank changed =
      elim (Bool-cases (raw == m.stable_label)) [
        | inl eq ↦
            let kept : m' ≡ record m { pending_label = none; pending_count = 0 } =
              moved ∙ rw (one_rank eq) (move_same s b raw m eq) in
            absurd (changed (ap (λ x. x.stable_label) kept))
        | inr ne ↦
            let moved' = moved ∙ move_different s a b raw m ne in
            elim (Bool-cases (leb (switch_days s a b raw m.stable_label) (count_of raw m))) [
              | inl now ↦
                  let run_seen = count-Trails seen raw m.pending_label m.pending_count h.trails in
                  let taken : m' ≡ settle raw = moved' ∙ rw now in
                  (ap (λ x. x.stable_label) taken, (count_of raw m, leb→le _ _ now, run_seen.1))
              | inr later ↦
                  let kept : m'
                      ≡ record m { pending_label = some raw; pending_count = count_of raw m } =
                    moved' ∙ rw later in
                  absurd (changed (ap (λ x. x.stable_label) kept))
            ]
      ]

  -- A label takes effect only after it was the raw label of the whole configured run. From the first
  -- label on, if a session changes the stable label, it changes it to the session's raw label, and
  -- that label was then seen at least as many times in a row as `switch_days` configures.
  pub stable_change_needs_run :
      (s : Settings L) (first : L) (seen : List L) (raw : L) (m m' : Memory L) (a b : ℤ)
      → lookup s.risk_rank raw ≡ some a
      → lookup s.risk_rank m.stable_label ≡ some b
      → memory_after s (settle first) seen ≡ ok m
      → step s m raw ≡ ok m'
      → m'.stable_label ≢ m.stable_label
      → (m'.stable_label ≡ raw)
        × ((n : ℕ) × (switch_days s a b raw m.stable_label ≤ n)
            × ((before : List L) × (seen ++ (raw ∷ []) ≡ before ++ replicate n raw)))
  stable_change_needs_run s first seen raw m m' a b ha hb reached stepped changed =
      let start =
        memory_after-IsTrailing s [] (settle first) m seen (settle-IsTrailing [] first) reached in
      let one_rank : (raw == m.stable_label) ≡ true → a ≡ b = λ eq.
        some-injective _ _
          (sym ha ∙ ap (lookup s.risk_rank) ((e.eq_test_iff raw m.stable_label).0 eq) ∙ hb) in
      change_needs_run s seen raw m m' a b start
        (ok-injective (sym stepped ∙ step-eq-move s m raw a b ha hb)) one_rank changed
