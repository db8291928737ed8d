-- ===== src/Hysteresis/Ranks.antt =====
-- That the loop returns, and how risky the labels are that it shows.
use regime_detection.Prelude.{
  All, ok, [], List, ◌≡◌, ◌⊎◌, some, PyEq, arith, refl, sym, inl, inr, true, ◌∷◌, if◌then◌else◌,
  Bool-cases, Option-cases, nat_eq, string_eq, bind_ok, ok-injective,
}
use regime_detection.Prelude.Int.{pos, ℤ, int_eq, ◌≤ℤ◌, ltb_ℤ}
use regime_detection.Prelude.Dict.{get_or, lookup}
use regime_detection.Hysteresis.{
  settle, check_settings, apply_per_label_asymmetric_hysteresis, run, active_of, step, Settings,
  Memory, escalate, deescalate, move,
}

-- A relation on the sessions of three lists of one length.
pub data Sessions {ℓ} {L : Type ℓ} (P : L → L → L → Type ℓ)
    : List L → List L → List L → Type ℓ where
  no_sessions : Sessions P [] [] []
  one_session :
      {r s a : L} {rs ss actives : List L}
      → P r s a
      → Sessions P rs ss actives
      → Sessions P (r ∷ rs) (s ∷ ss) (a ∷ actives)

module _ {ℓ} {L : Type ℓ} ⦃e : PyEq L⦄ where
  -- The label has a rank.
  abbrev pub HasRank : Settings L → L → Type 0
  HasRank s l = (r : ℤ) × (lookup s.risk_rank l ≡ some r)

  move-stable :
      (s : Settings L) (a b : ℤ) (raw : L) (m : Memory L)
      → ((move s a b raw m).stable_label ≡ raw) ⊎ ((move s a b raw m).stable_label ≡ m.stable_label)
  unfolding move escalate deescalate
  move-stable s a b raw m = ground arith

  abbrev pub rank_of : Settings L → L → ℤ
  rank_of s l = get_or s.risk_rank l (pos 0)

  -- A shown label is the session's raw label or its stable label, and neither outranks it.
  pub record NeverUnderstates (s : Settings L) (raw stable active : L) : Type ℓ where
    pub one_of : (active ≡ raw) ⊎ (active ≡ stable)
    pub raw_le : rank_of s raw ≤ℤ rank_of s active
    pub stable_le : rank_of s stable ≤ℤ rank_of s active

  step-HasRank :
      (s : Settings L) (m : Memory L) (raw : L)
      → HasRank s m.stable_label
      → HasRank s raw
      → (m' : Memory L) × (step s m raw ≡ ok m') × HasRank s m'.stable_label
  unfolding step
  step-HasRank s m raw (b, hb) (a, ha) = (
    move s a b raw m,
    rw (ha, hb) refl,
    elim (move-stable s a b raw m) [ inl p ↦ rw p (a, ha) | inr p ↦ rw p (b, hb) ],
  )

  active_of-HasRank :
      (s : Settings L) (raw stable : L)
      → HasRank s stable
      → HasRank s raw
      → (a : L) × (active_of s raw stable ≡ ok a) × NeverUnderstates s raw stable a
  unfolding active_of
  active_of-HasRank s raw stable (b, hb) (a, ha) = (
    if ltb_ℤ b a then raw else stable,
    rw (ha, hb) refl,
    elim (Bool-cases (ltb_ℤ b a)) [
      | inl p ↦ rw p (record {
        one_of = inl refl;
        raw_le = omega arith;
        stable_le = rw (ha, hb) (ground arith);
      })
      | inr p ↦ rw p (record {
        one_of = inr refl;
        raw_le = rw (ha, hb) (ground arith);
        stable_le = omega arith;
      })
    ],
  )

  run_shows :
      (s : Settings L) (m : Memory L) (raws : List L)
      → HasRank s m.stable_label
      → All (HasRank s) raws
      → (out : List L × List L) × (run s m raws ≡ ok out)
        × Sessions (NeverUnderstates s) raws out.0 out.1
  unfolding run
  run_shows s m [] hm h = (([], []), refl, no_sessions)
  run_shows s m (raw ∷ raws) hm (h, hs) =
      let (m', e₁, hm') = step-HasRank s m raw hm h in
      let (active, e₂, shows) = active_of-HasRank s raw m'.stable_label hm' h in
      let (out, e₃, rest) = run_shows s m' raws hm' hs in
      ((m'.stable_label ∷ out.0, active ∷ out.1), rw (e₁, e₂, e₃) refl, one_session shows rest)

  -- On checked settings the plain loop returns for every non-empty list of ranked labels, with one
  -- stable and one active label for each session; the active label is the session's raw or stable
  -- one, and neither of those is riskier than it.
  pub apply_per_label-NeverUnderstates :
      (s : Settings L) (raw : L) (raws : List L)
      → check_settings s ≡ ok tt
      → All (HasRank s) (raw ∷ raws)
      → (out : List L × List L) × (apply_per_label_asymmetric_hysteresis s (raw ∷ raws) ≡ ok out)
        × Sessions (NeverUnderstates s) (raw ∷ raws) out.0 out.1
  unfolding apply_per_label_asymmetric_hysteresis
  apply_per_label-NeverUnderstates s raw raws checked h =
      let (out, e₁, shows) = run_shows s (settle raw) (raw ∷ raws) h.0 h in
      (out, rw checked e₁, shows)

module _ {L : Type 0} ⦃e : PyEq L⦄ where
  -- What a session of a loop that returned was.
  pub run-cons-inv :
      (s : Settings L) (m : Memory L) (raw : L) (raws : List L) (out : List L × List L)
      → run s m (raw ∷ raws) ≡ ok out
      → (m' : Memory L) × (active : L) × (rest : List L × List L) × (step s m raw ≡ ok m')
        × (active_of s raw m'.stable_label ≡ ok active)
        × (run s m' raws ≡ ok rest)
        × (out ≡ (m'.stable_label ∷ rest.0, active ∷ rest.1))
  unfolding run
  run-cons-inv s m raw raws out h =
      let (m', stepped, h₁) = bind_ok (step s m raw) _ h in
      let (active, shown, h₂) = bind_ok (active_of s raw m'.stable_label) _ h₁ in
      let (rest, ran, h₃) = bind_ok (run s m' raws) _ h₂ in
      (m', active, rest, stepped, shown, ran, sym (ok-injective h₃))

  immediate_move :
      (s : Settings L) (m : Memory L) (raw : L) (a b : ℤ)
      → s.escalation_days_by_label ≡ []
      → s.default_escalation_days ≡ pos 1
      → ltb_ℤ b a ≡ true
      → (move s a b raw m).stable_label ≡ raw
  unfolding move escalate
  immediate_move s m raw a b none_listed one_day riskier = rw (riskier, none_listed, one_day) refl

  immediate_session :
      (s : Settings L) (m m' : Memory L) (raw active : L)
      → s.escalation_days_by_label ≡ []
      → s.default_escalation_days ≡ pos 1
      → step s m raw ≡ ok m'
      → active_of s raw m'.stable_label ≡ ok active
      → active ≡ m'.stable_label
  unfolding step active_of
  immediate_session s m m' raw active none_listed one_day stepped shown =
      elim (Option-cases (lookup s.risk_rank raw)) [
        | inl ha ↦ ground arith
        | inr (a, ha) ↦ elim (Option-cases (lookup s.risk_rank m.stable_label)) [
          | inl hb ↦ ground arith
          | inr (b, hb) ↦
              ground
                (arith, immediate_move s m raw a b none_listed one_day, move-stable s a b raw m)
        ]
      ]

  -- With the default escalation (no per-label days, one day by default) a riskier raw label is the
  -- stable one in the same session, so whenever the loop returns the two lists are equal.
  pub run_immediate :
      (s : Settings L) (m : Memory L) (raws : List L) (out : List L × List L)
      → s.escalation_days_by_label ≡ []
      → s.default_escalation_days ≡ pos 1
      → run s m raws ≡ ok out
      → out.1 ≡ out.0
  unfolding run
  run_immediate s m [] out none_listed one_day h = ground arith
  run_immediate s m (raw ∷ raws) out none_listed one_day h =
      let (m', active, rest, stepped, shown, ran, e') = run-cons-inv s m raw raws out h in
      let first = immediate_session s m m' raw active none_listed one_day stepped shown in
      let later = run_immediate s m' raws rest none_listed one_day ran in rw (e', first, later) refl
