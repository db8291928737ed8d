-- ===== src/Transition/Debounce/Exact.antt =====
-- A state is published after exactly the sessions that it requires.
use regime_detection.Prelude.Int.{ℤ, pos, ltb_ℤ, leb_ℤ, int_eq}
use mathlib.Core.Path.{subst}
use regime_detection.Prelude.{
  ℕ, zero, suc, ◌+◌, ◌-◌, ◌≤◌, ◌<◌, min, String, ◌≡◌, refl, ap, ◌∙◌, true, false, some, List, [],
  ◌∷◌, ◌++◌, map, arith, ◌==◌, nat_eq, string_eq, bool_eq, ==_refl, length, replicate, All, Result,
  ok,
}
use regime_detection.Prelude.Dict.{Dict, lookup, get, has_key}
use regime_detection.Transition.Risk.{TransitionRiskOutput}
use regime_detection.Transition.Debounce.{
  DebounceMemory, settled, days_required, seen_count, held, debounce, debounce_from,
  apply_transition_state_debounce,
}

-- The states of n sessions: the old one for j of them, then the new one.
abbrev pub schedule : ℕ → ℕ → String → String → List String
schedule n j old new = replicate (min n j) old ++ replicate (n - j) new

schedule_empty : (j : ℕ) (old new : String) → [] ≡ schedule 0 j old new
schedule_empty j old new =
    let first : min 0 j ≡ 0 = omega arith in
    let rest : 0 - j ≡ 0 = omega arith in rw (first, rest) refl

schedule_now : (n : ℕ) (old new : String) → new ∷ replicate n new ≡ schedule (suc n) 0 old new
schedule_now n old new =
    let first : min (suc n) 0 ≡ 0 = omega arith in
    let rest : suc n - 0 ≡ suc n = omega arith in rw (first, rest) refl

leb_pos : (a b : ℕ) → a ≤ b → leb_ℤ (pos a) (pos b) ≡ true
leb_pos a b h = ground arith

leb_pos_false : (a b : ℕ) → b < a → leb_ℤ (pos a) (pos b) ≡ false
leb_pos_false a b h = ground arith

some_days : (k : ℕ) → days_required (some (pos (suc k))) ≡ ok (pos (1 + k))
some_days k =
    let first : ltb_ℤ (pos (suc k)) (pos 1) ≡ false = ground arith in
    let same : suc k ≡ 1 + k = omega arith in rw first (ap (λ n. ok (pos n)) same)

schedule_later :
    (n j : ℕ) (old new : String) → old ∷ schedule n j old new ≡ schedule (suc n) (suc j) old new
schedule_later n j old new =
    let first : min (suc n) (suc j) ≡ suc (min n j) = omega arith in
    let rest : suc n - suc j ≡ n - j = omega arith in rw (first, rest) refl

module _ {F : Type 0} where
  -- The raw output of a day is there and has the state.
  abbrev pub HasState : Dict ℕ (TransitionRiskOutput F) → String → ℕ → Type 0
  HasState raw_outputs state day =
      (raw : TransitionRiskOutput F) × (get raw_outputs day ≡ ok raw) × (raw.state ≡ state)

  abbrev pub states_of : Dict ℕ (TransitionRiskOutput F) → List String
  states_of = map (λ e. e.1.state)

  -- A run that ends well, with the states it publishes.
  abbrev pub Publishes : Result (Dict ℕ (TransitionRiskOutput F)) → List String → Type 0
  Publishes result states =
      (outputs : Dict ℕ (TransitionRiskOutput F)) × (result ≡ ok outputs)
      × (states_of outputs ≡ states)

  -- One session in front of a run.
  session-Publishes :
      (confirmation : Dict String ℤ) (raw_outputs : Dict ℕ (TransitionRiskOutput F))
      (m after : DebounceMemory) (day : ℕ) (days : List ℕ) (raw out : TransitionRiskOutput F)
      (required : ℤ) (states : List String)
      → get raw_outputs day ≡ ok raw
      → days_required (lookup confirmation raw.state) ≡ ok required
      → debounce required raw m ≡ (after, out)
      → Publishes (debounce_from confirmation raw_outputs after days) states
      → Publishes (debounce_from confirmation raw_outputs m (day ∷ days)) (out.state ∷ states)
  unfolding debounce_from
  session-Publishes confirmation raw_outputs m after day days raw out required states found valid
        stepped (outputs, ran, published) =
      ((day, out) ∷ outputs, rw (found, valid, stepped, ran) refl, ap (◌∷◌ out.state) published)

  debounce_same :
      (required : ℤ) (raw : TransitionRiskOutput F) (state : String)
      → raw.state ≡ state
      → debounce required raw (settled state) ≡ (settled state, raw)
  unfolding debounce
  debounce_same required raw state same = rw (same, ==_refl state) refl

  debounce_confirmed :
      (required : ℤ) (raw : TransitionRiskOutput F) (state : String) (m : DebounceMemory)
      → raw.state ≡ state
      → (state == m.active_state) ≡ false
      → leb_ℤ required (pos (seen_count state m)) ≡ true
      → debounce required raw m ≡ (settled state, raw)
  unfolding debounce
  debounce_confirmed required raw state m same other enough = rw (same, other, enough) refl

  debounce-held :
      (required : ℤ) (raw : TransitionRiskOutput F) (state : String) (m : DebounceMemory)
      → raw.state ≡ state
      → (state == m.active_state) ≡ false
      → leb_ℤ required (pos (seen_count state m)) ≡ false
      → debounce required raw m ≡ (
        record m { pending_state = some state; pending_count = seen_count state m },
        held m.active_state raw,
      )
  unfolding debounce
  debounce-held required raw state m same other few = rw (same, other, few) refl

  settled-Publishes :
      (confirmation : Dict String ℤ) (raw_outputs : Dict ℕ (TransitionRiskOutput F))
      (state : String) (required : ℤ) (days : List ℕ)
      → days_required (lookup confirmation state) ≡ ok required
      → All (HasState raw_outputs state) days
      → Publishes
          (debounce_from confirmation raw_outputs (settled state) days)
          (replicate (length days) state)
  unfolding debounce_from
  settled-Publishes confirmation raw_outputs state required [] valid all_state = ([], refl, refl)
  settled-Publishes confirmation raw_outputs state required (day ∷ days) valid
        ((raw, found, same), all_state) =
      let published =
        session-Publishes confirmation raw_outputs (settled state) (settled state) day days raw raw
          required (replicate (length days) state) found (rw same valid)
          (debounce_same required raw state same)
          (settled-Publishes confirmation raw_outputs state required days valid all_state) in
      subst
        (λ x.
          Publishes (debounce_from confirmation raw_outputs (settled state) (day ∷ days))
            (x ∷ replicate (length days) state))
        same published

  -- From a memory that has seen the state c times in a row, with j more sessions to wait after the
  -- next one.
  pending-Publishes :
      (confirmation : Dict String ℤ) (raw_outputs : Dict ℕ (TransitionRiskOutput F))
      (state : String) (m : DebounceMemory) (c j : ℕ) (days : List ℕ)
      → days_required (lookup confirmation state) ≡ ok (pos (suc c + j))
      → (state == m.active_state) ≡ false
      → seen_count state m ≡ suc c
      → All (HasState raw_outputs state) days
      → Publishes
          (debounce_from confirmation raw_outputs m days)
          (replicate (min (length days) j) m.active_state ++ replicate (length days - j) state)
  unfolding debounce_from
  pending-Publishes confirmation raw_outputs state m c j [] valid other seen all_state =
      ([], refl, schedule_empty j m.active_state state)
  pending-Publishes confirmation raw_outputs state m c zero (day ∷ days) valid other seen
        ((raw, found, same), all_state) =
      let enough : leb_ℤ (pos (suc c + 0)) (pos (seen_count state m)) ≡ true =
        leb_pos (suc c + 0) (seen_count state m) (omega arith) in
      let published =
        session-Publishes confirmation raw_outputs m (settled state) day days raw raw
          (pos (suc c + 0)) (replicate (length days) state) found (rw same valid)
          (debounce_confirmed (pos (suc c + 0)) raw state m same other enough)
          (settled-Publishes confirmation raw_outputs state (pos (suc c + 0)) days valid
            all_state) in
      subst (Publishes (debounce_from confirmation raw_outputs m (day ∷ days)))
        (ap (λ x. x ∷ replicate (length days) state) same
          ∙ schedule_now (length days) m.active_state state)
        published
  pending-Publishes confirmation raw_outputs state m c (suc j) (day ∷ days) valid other seen
        ((raw, found, same), all_state) =
      let few : leb_ℤ (pos (suc c + suc j)) (pos (seen_count state m)) ≡ false =
        leb_pos_false (suc c + suc j) (seen_count state m) (omega arith) in
      let after : DebounceMemory = record m {
        pending_state = some state;
        pending_count = seen_count state m;
      } in
      let seen_again : seen_count state after ≡ suc (suc c) =
        rw (==_refl state, seen) (omega arith) in
      let shifted : days_required (lookup confirmation state) ≡ ok (pos (suc (suc c) + j)) =
        valid ∙ ap (λ n. ok (pos n)) (omega arith) in
      let published =
        session-Publishes confirmation raw_outputs m after day days raw (held m.active_state raw)
          (pos (suc c + suc j)) (schedule (length days) j m.active_state state) found
          (rw same valid) (debounce-held (pos (suc c + suc j)) raw state m same other few)
          (pending-Publishes confirmation raw_outputs state after (suc c) j days shifted other
            seen_again all_state) in
      subst (Publishes (debounce_from confirmation raw_outputs m (day ∷ days)))
        (schedule_later (length days) j m.active_state state) published

  -- Confirmation is exact. From a known active state, a different state that requires k + 1 sessions
  -- and is the raw one of every session is held back for k sessions, in which the active state is
  -- published, and is published from then on; no session raises.
  pub apply_transition_state_debounce_exact :
      (sessions : List ℕ) (raw_outputs : Dict ℕ (TransitionRiskOutput F))
      (confirmation : Dict String ℤ) (initial state : String) (k : ℕ)
      → has_key confirmation initial ≡ true
      → lookup confirmation state ≡ some (pos (suc k))
      → (state == initial) ≡ false
      → All (HasState raw_outputs state) sessions
      → Publishes
          (apply_transition_state_debounce sessions raw_outputs confirmation (some initial))
          (replicate (min (length sessions) k) initial ++ replicate (length sessions - k) state)
  unfolding apply_transition_state_debounce
  apply_transition_state_debounce_exact sessions raw_outputs confirmation initial state k known
        given other all_state =
      let valid : days_required (lookup confirmation state) ≡ ok (pos (suc 0 + k)) =
        rw given (some_days k) in
      rw known (
        pending-Publishes confirmation raw_outputs state (settled initial) 0 k sessions valid other
          refl all_state)
