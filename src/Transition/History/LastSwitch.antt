-- ===== src/Transition/History/LastSwitch.antt =====
-- The running maximum of the switch positions, and the distance to the last switch.
use regime_detection.Prelude.Int.{ℤ, pos, negsuc, pos_part, ◌-ℤ◌, int_eq}
use regime_detection.Prelude.{
  ℕ, zero, suc, ◌+◌, ◌-◌, ◌<◌, ◌≡◌, refl, sym, ap, ◌∙◌, ◌⊎◌, inl, inr, Bool, true, false, Option,
  none, some, List, [], ◌∷◌, map, arith, ltb, if◌then◌else◌, nat_eq, string_eq, bool_eq, length,
}
use regime_detection.Transition.History.{
  switch_positions, max_ℤ, cummax_after, cummax, days_within, days_column, days_since_axis_switch,
}
use regime_detection.Transition.History.Seen.{seen_at}

-- The position of the last switch in flags that are newest first, -1 without one.
last_position : List Bool → ℤ
last_position [] = negsuc 0
last_position (changed ∷ seen) = if changed then pos (length seen) else last_position seen

IsEarlier : List Bool → ℤ → Type 0
IsEarlier seen last = (last ≡ negsuc 0) ⊎ ((p : ℕ) × ((last ≡ pos p) × (p < length seen)))

last_position-IsEarlier : (seen : List Bool) → IsEarlier seen (last_position seen)
unfolding last_position IsEarlier
last_position-IsEarlier [] = inl refl
last_position-IsEarlier (true ∷ seen) = inr (length seen, (refl, omega arith))
last_position-IsEarlier (false ∷ seen) = elim (last_position-IsEarlier seen) [
  | inl none_yet ↦ inl none_yet
  | inr (p, (at, below)) ↦ inr (p, (at, omega arith))
]

-- The running maximum moves to the newest switch.
max-last_position :
    (changed : Bool) (seen : List Bool)
    → max_ℤ (last_position seen) (if changed then pos (length seen) else negsuc 0)
      ≡ last_position (changed ∷ seen)
unfolding last_position IsEarlier
max-last_position true seen = elim (last_position-IsEarlier seen) [
  | inl none_yet ↦ rw none_yet (ground arith)
  | inr (p, (at, below)) ↦ rw at (ground arith)
]
max-last_position false seen = elim (last_position-IsEarlier seen) [
  | inl none_yet ↦ rw none_yet refl
  | inr (p, (at, below)) ↦ rw at (ground arith)
]

last_at :
    (seen changed : List Bool)
    → cummax_after (last_position seen) (switch_positions (length seen) changed)
      ≡ map last_position (seen_at seen changed)
unfolding cummax_after switch_positions seen_at
last_at seen [] = refl
last_at seen (c ∷ changed) =
    rw (max-last_position c seen) (ap (◌∷◌ (last_position (c ∷ seen))) (last_at (c ∷ seen) changed))

lasts_at :
    (changed : List Bool)
    → cummax (switch_positions 0 changed) ≡ map last_position (seen_at [] changed)
unfolding cummax switch_positions seen_at last_position
lasts_at [] = refl
lasts_at (true ∷ changed) = ap (◌∷◌ (pos 0)) (last_at (true ∷ []) changed)
lasts_at (false ∷ changed) = ap (◌∷◌ (negsuc 0)) (last_at (false ∷ []) changed)

unfoldable pub days_back_flags : ℕ → ℕ → List Bool → Option ℤ
days_back_flags zero days seen = none
days_back_flags (suc n) days [] = none
days_back_flags (suc n) days (changed ∷ seen) =
    let earlier = days_back_flags n (suc days) seen in if changed then some (pos days) else earlier

-- The distance to the last switch, where it is among the newest `n`.
distance : ℕ → ℕ → ℕ → ℕ → Option ℤ
distance n days size p = if ltb size (p + suc n) then some (pos (days + (size - suc p))) else none

days_back_none :
    (n days : ℕ) (seen : List Bool)
    → last_position seen ≡ negsuc 0
    → days_back_flags n days seen ≡ none
unfolding last_position days_back_flags
days_back_none zero days seen h = refl
days_back_none (suc n) days [] h = refl
days_back_none (suc n) days (true ∷ seen) h = cc
days_back_none (suc n) days (false ∷ seen) h = days_back_none n (suc days) seen h

distance_step :
    (n days size p : ℕ)
    → p < size
    → distance n (suc days) size p ≡ distance (suc n) days (suc size) p
unfolding distance
distance_step n days size p below = ground arith

days_back-distance :
    (n days p : ℕ) (seen : List Bool)
    → last_position seen ≡ pos p
    → p < length seen
    → days_back_flags n days seen ≡ distance n days (length seen) p
unfolding last_position days_back_flags distance IsEarlier
days_back-distance n days p [] h below = cc
days_back-distance zero days p (c ∷ seen) h below = ground arith
days_back-distance (suc n) days p (true ∷ seen) h below =
    let here : length seen ≡ p = ap pos_part h in ground arith
days_back-distance (suc n) days p (false ∷ seen) h below = elim (last_position-IsEarlier seen) [
  | inl none_yet ↦ cc
  | inr (q, (at, under)) ↦
      let same : p ≡ q = ap pos_part (sym h ∙ at) in
      days_back-distance n (suc days) p seen h (omega arith)
      ∙ distance_step n days (length seen) p (omega arith)
]

-- The source's tests on a position are those of the distance.
days_within-distance :
    (size p : ℕ) → p < suc size → days_within size (pos p) ≡ distance 60 0 (suc size) p
unfolding days_within distance ◌-ℤ◌
days_within-distance size p below = ground arith

days_within-back :
    (changed : Bool) (seen : List Bool)
    → days_within (length seen) (last_position (changed ∷ seen))
      ≡ days_back_flags 60 0 (changed ∷ seen)
unfolding IsEarlier days_within
days_within-back changed seen = elim (last_position-IsEarlier (changed ∷ seen)) [
  | inl none_yet ↦ rw (none_yet, days_back_none 60 0 (changed ∷ seen) none_yet) refl
  | inr (p, (at, below)) ↦
      rw (at, days_back-distance 60 0 p (changed ∷ seen) at below)
        (days_within-distance (length seen) p below)
]

days_at :
    (seen changed : List Bool)
    → days_column (length seen) (map last_position (seen_at seen changed))
      ≡ map (days_back_flags 60 0) (seen_at seen changed)
unfolding days_column seen_at
days_at seen [] = refl
days_at seen (c ∷ changed) =
    rw (days_within-back c seen)
      (ap (◌∷◌ (days_back_flags 60 0 (c ∷ seen))) (days_at (c ∷ seen) changed))

pub days_since_at :
    (changed : List Bool)
    → days_since_axis_switch changed ≡ map (days_back_flags 60 0) (seen_at [] changed)
unfolding days_since_axis_switch
days_since_at changed = rw (lasts_at changed) (days_at [] changed)
