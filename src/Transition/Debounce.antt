-- ===== src/Transition/Debounce.antt =====
-- `apply_transition_state_debounce` of src/regime_detection/transition_risk_history.py. The sessions
-- are distinct days, so that the dictionary of outputs is the list of its entries.
mod Exact
mod Tests
use regime_detection.Prelude.Int.{ℤ, pos, ltb_ℤ, leb_ℤ, int_eq}
use regime_detection.Prelude.{
  ℕ, ◌+◌, String, not, Option, none, some, List, [], ◌∷◌, ◌++◌, if◌then◌else◌, ◌==◌, nat_eq,
  string_eq, bool_eq, is_some_of, value_error, runtime_error, Result, ok, err, ◌>>=◌, ◌>>◌,
  raise_if,
}
use regime_detection.Prelude.Dict.{Dict, lookup, get, has_key}
use regime_detection.Transition.Risk.{TransitionRiskOutput}

-- The loop's variables.
pub record DebounceMemory : Type 0 where
  pub active_state : String
  pub pending_state : Option String
  pub pending_count : ℕ

abbrev pub settled : String → DebounceMemory
settled state = record { active_state = state; pending_state = none; pending_count = 0 }

abbrev pub days_required : Option ℤ → Result ℤ
days_required none = err value_error
days_required (some days) = do raise_if (ltb_ℤ days (pos 1)) value_error; ok days

abbrev pub seen_count : String → DebounceMemory → ℕ
seen_count state m = if is_some_of m.pending_state state then m.pending_count + 1 else 1

module _ {ℓ} {F : Type ℓ} where
  -- The raw output under the state that is still active.
  abbrev pub held : String → TransitionRiskOutput F → TransitionRiskOutput F
  held active raw =
      let rules = raw.triggered_rules ++ ("state_confirmation_pending" ∷ []) in
      record raw {
        state = active;
        triggered_rules = rules;
        evidence = record raw.evidence { triggered_rules = rules };
      }

  -- What a session does with its raw output, given the days its state requires.
  unfoldable pub debounce :
      ℤ → TransitionRiskOutput F → DebounceMemory → DebounceMemory × TransitionRiskOutput F
  debounce required raw m =
      if raw.state == m.active_state
      then (settled raw.state, raw)
      else (if leb_ℤ required (pos (seen_count raw.state m)) then (settled raw.state, raw) else (
        record m { pending_state = some raw.state; pending_count = seen_count raw.state m },
        held m.active_state raw,
      ))

  unfoldable pub debounce_from :
      Dict String ℤ
      → Dict ℕ (TransitionRiskOutput F)
      → DebounceMemory
      → List ℕ
      → Result (Dict ℕ (TransitionRiskOutput F))
  unfolding debounce
  debounce_from confirmation raw_outputs m [] = ok []
  debounce_from confirmation raw_outputs m (day ∷ days) = do
    raw ← get raw_outputs day
    required ← days_required (lookup confirmation raw.state)
    let after = debounce required raw m
    rest ← debounce_from confirmation raw_outputs after.0 days
    ok ((day, after.1) ∷ rest)

  unfoldable pub apply_transition_state_debounce :
      List ℕ
      → Dict ℕ (TransitionRiskOutput F)
      → Dict String ℤ
      → Option String
      → Result (Dict ℕ (TransitionRiskOutput F))
  unfolding debounce_from
  apply_transition_state_debounce sessions raw_outputs confirmation none = err runtime_error
  apply_transition_state_debounce sessions raw_outputs confirmation (some initial) = do
    raise_if (not (has_key confirmation initial)) value_error
    debounce_from confirmation raw_outputs (settled initial) sessions
