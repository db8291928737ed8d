-- ===== src/Transition/History/Missing.antt =====
-- When a session has no stable label.
use regime_detection.Prelude.Int.{int_eq}
use regime_detection.Prelude.{
  ℕ, String, ◌≡◌, refl, inl, inr, Bool, true, false, ◌&&◌, List, [], ◌∷◌, Bool-cases, ◌==◌, nat_eq,
  string_eq, bool_eq, all, key_error, Result, ok, err, ◌>>=◌,
}
use regime_detection.Prelude.Dict.{Dict, get, has_key}
use regime_detection.Transition.History.{
  StableLabels, stable_row, stable_frame, build_transition_risk_history,
}

-- Whether a session has all four labels.
abbrev pub is_labelled : StableLabels → ℕ → Bool
is_labelled labels day =
    has_key labels.trend_direction_stable_by_date day
    && (has_key labels.trend_character_stable_by_date day
        && (has_key labels.volatility_stable_by_date day
            && has_key labels.breadth_stable_by_date day))

get-has_key : (d : Dict ℕ String) (k : ℕ) → has_key d k ≡ true → (v : String) × (get d k ≡ ok v)
get-has_key [] k h = cc
get-has_key ((j, v) ∷ d) k h = elim (Bool-cases (j == k)) [
  | inl here ↦ rw here (v, refl)
  | inr there ↦ rw there (get-has_key d k (rw there at h))
]

get_missing : (d : Dict ℕ String) (k : ℕ) → has_key d k ≡ false → get d k ≡ err key_error
get_missing [] k h = refl
get_missing ((j, v) ∷ d) k h = elim (Bool-cases (j == k)) [
  | inl here ↦ let absurd = rw here at h in cc
  | inr there ↦ rw there (get_missing d k (rw there at h))
]

-- The outcome of a step, by a test.
abbrev pub Raises {ℓ} : {A : Type ℓ} → Bool → Result A → Type ℓ
Raises {A} true outcome = (value : A) × (outcome ≡ ok value)
Raises false outcome = outcome ≡ err key_error

get-Raises : (d : Dict ℕ String) (k : ℕ) → Raises (has_key d k) (get d k)
get-Raises d k = elim (Bool-cases (has_key d k)) [
  | inl here ↦ rw here (get-has_key d k here)
  | inr missing ↦ rw missing (get_missing d k missing)
]

bind-Raises {ℓ κ} :
    {A : Type ℓ} {B : Type κ} (b c : Bool) (first : Result A) (following : A → Result B)
    → Raises b first
    → ((value : A) → Raises c (following value))
    → Raises (b && c) (first >>= following)
bind-Raises true c first following (value, h) next = rw h (next value)
bind-Raises false c first following h next = rw h refl

last-Raises {ℓ κ} :
    {A : Type ℓ} {B : Type κ} (b : Bool) (first : Result A) (make : A → B)
    → Raises b first
    → Raises b (first >>= λ value. ok (make value))
last-Raises true first make (value, h) = rw h (make value, refl)
last-Raises false first make h = rw h refl

row-Raises :
    (labels : StableLabels) (day : ℕ) → Raises (is_labelled labels day) (stable_row labels day)
unfolding stable_row
row-Raises labels day =
    bind-Raises _ _ _ _ (get-Raises labels.trend_direction_stable_by_date day) (λ direction.
      bind-Raises _ _ _ _ (get-Raises labels.trend_character_stable_by_date day) (λ character.
        bind-Raises _ _ _ _ (get-Raises labels.volatility_stable_by_date day) (λ volatility.
          last-Raises _ _
            (λ breadth. record {
              trend_direction = direction;
              trend_character = character;
              volatility = volatility;
              breadth = breadth;
            })
            (get-Raises labels.breadth_stable_by_date day))))

frame-Raises :
    (labels : StableLabels) (days : List ℕ)
    → Raises (all (is_labelled labels) days) (stable_frame labels days)
unfolding stable_frame
frame-Raises labels [] = ([], refl)
frame-Raises labels (day ∷ days) =
    bind-Raises _ _ _ _ (row-Raises labels day)
      (λ row. last-Raises _ _ _ (frame-Raises labels days))

-- The history is built exactly when every session has all four stable labels; otherwise the lookup's
-- `KeyError` leaves the function and there is no history.
pub build_transition_risk_history_missing :
    (labels : StableLabels) (sessions : List ℕ)
    → Raises (all (is_labelled labels) sessions) (build_transition_risk_history labels sessions)
unfolding build_transition_risk_history
build_transition_risk_history_missing labels sessions =
    last-Raises _ _ _ (frame-Raises labels sessions)
