-- ===== src/Hysteresis/Tests.antt =====
-- The plain loop on small inputs, and its theorems there.
use regime_detection.Prelude.Dict.{Dict}
use mathlib.Core.Bool.{false≢true}
use regime_detection.Prelude.Int.{ℤ, pos, int_eq}
use regime_detection.Prelude.{
  ℕ, ◌≤◌, String, ◌≡◌, refl, some, List, [], ◌∷◌, ◌++◌, nat_eq, string_eq, replicate, value_error,
  ok, err,
}
use regime_detection.Hysteresis.{
  Settings, Memory, settle, step, active_of, run, apply_per_label_asymmetric_hysteresis,
}
use regime_detection.Hysteresis.Ranks.{Sessions, NeverUnderstates, apply_per_label-NeverUnderstates}
use regime_detection.Hysteresis.Dwell.{run_switches_exactly}
use regime_detection.Hysteresis.Trailing.{
  memory_after, stable_change_needs_run, memory_after-IsTrailing, IsTrailing,
}

abbrev volume_rank : Dict String ℤ
volume_rank =
    ("normal_volume", pos 0)
    ∷ ("unknown", pos 1)
    ∷ ("liquidity_gap_behavior", pos 2)
    ∷ ("panic_volume", pos 3)
    ∷ []

-- Panic is left after three calm sessions, every other label at once.
abbrev volume_settings : Settings String
volume_settings = record {
  risk_rank = volume_rank;
  deescalation_days_by_label = ("panic_volume", pos 3) ∷ [];
  escalation_days_by_label = [];
  default_escalation_days = pos 1;
  default_deescalation_days = pos 0;
}

abbrev panic_days : List String
panic_days =
    "normal_volume" ∷ "panic_volume" ∷ "normal_volume" ∷ "unknown" ∷ "normal_volume"
    ∷ "normal_volume" ∷ "normal_volume" ∷ []

abbrev panic_stable : List String
panic_stable =
    "normal_volume" ∷ "panic_volume" ∷ "panic_volume" ∷ "panic_volume" ∷ "panic_volume"
    ∷ "panic_volume" ∷ "normal_volume" ∷ []

runs :
    apply_per_label_asymmetric_hysteresis volume_settings panic_days
    ≡ ok (panic_stable, panic_stable)
unfolding apply_per_label_asymmetric_hysteresis run step active_of
runs = refl

refuses_empty : apply_per_label_asymmetric_hysteresis volume_settings [] ≡ err value_error
unfolding apply_per_label_asymmetric_hysteresis
refuses_empty = refl

apply_per_label-NeverUnderstates_example :
    (out : List String × List String) × (apply_per_label_asymmetric_hysteresis volume_settings
        panic_days
      ≡ ok out)
    × Sessions (NeverUnderstates volume_settings) panic_days out.0 out.1
apply_per_label-NeverUnderstates_example =
    apply_per_label-NeverUnderstates volume_settings "normal_volume"
      ("panic_volume" ∷ "normal_volume" ∷ "unknown" ∷ "normal_volume" ∷ "normal_volume"
        ∷ "normal_volume" ∷ [])
      refl
      (
        (pos 0, refl),
        (
          (pos 3, refl),
          ((pos 0, refl), ((pos 1, refl), ((pos 0, refl), ((pos 0, refl), ((pos 0, refl), tt))))),
        ),
      )

run_switches_exactly_example :
    run volume_settings
      (settle "panic_volume")
      (replicate 2 "normal_volume" ++ replicate 2 "normal_volume")
    ≡ ok (
      replicate 2 "panic_volume" ++ replicate 2 "normal_volume",
      replicate 2 "panic_volume" ++ replicate 2 "normal_volume",
    )
run_switches_exactly_example =
    run_switches_exactly volume_settings "normal_volume" (pos 0) (pos 3) (settle "panic_volume") 2 1
      refl refl refl refl refl

abbrev waiting : Memory String
waiting = record {
  stable_label = "panic_volume";
  pending_label = some "normal_volume";
  pending_count = 2;
}

abbrev waiting_for : String
waiting_for = "normal_volume"

stable_change_needs_run_example :
    (waiting_for ≡ "normal_volume")
    × ((n : ℕ) × (3 ≤ n)
        × ((before : List String) × ("normal_volume" ∷ "normal_volume" ∷ "normal_volume" ∷ []
              ≡ before ++ replicate n "normal_volume")))
unfolding memory_after step
stable_change_needs_run_example =
    stable_change_needs_run volume_settings "panic_volume" ("normal_volume" ∷ "normal_volume" ∷ [])
      "normal_volume" waiting (settle "normal_volume") (pos 0) (pos 3) refl refl refl refl
      (λ p. false≢true ((string_eq.eq_test_iff _ _).1 p))

memory_after-IsTrailing_example : IsTrailing ("normal_volume" ∷ "normal_volume" ∷ []) waiting
unfolding memory_after step
memory_after-IsTrailing_example =
    memory_after-IsTrailing volume_settings [] (settle "panic_volume") waiting
      ("normal_volume" ∷ "normal_volume" ∷ []) (record { trails = refl; differs = refl }) refl
