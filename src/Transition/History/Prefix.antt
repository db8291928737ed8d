-- ===== src/Transition/History/Prefix.antt =====
-- Later sessions do not change the history of earlier ones.
use regime_detection.Prelude.Int.{int_eq}
use regime_detection.Prelude.{
  ℕ, suc, ◌≡◌, refl, sym, ap, ◌∙◌, List, [], ◌∷◌, ◌++◌, map, arith, ltb, nat_eq, string_eq, bool_eq,
  length, all, ok, bind_ok, ok-injective,
}
use regime_detection.Transition.History.{
  TransitionRiskHistory, StableLabels, StableRow, stable_row, stable_frame, by_date,
  build_transition_risk_history,
}
use regime_detection.Transition.History.Seen.{seen_at, seen_at-append, length-seen_at, map-++}
use regime_detection.Transition.History.Described.{
  switches_on, days_back, switches_within, bear_before, described,
  build_transition_risk_history-eq-described,
}

abbrev StartsWith {ℓ} : {A : Type ℓ} → List A → List A → Type ℓ
StartsWith {A} long short = (rest : List A) × (long ≡ short ++ rest)

-- Every dictionary of one history starts with that of the other.
pub record Extends (long short : TransitionRiskHistory) : Type 0 where
  pub changed : StartsWith long.stable_changed_by_date short.stable_changed_by_date
  pub days : StartsWith long.days_since_axis_switch_by_date short.days_since_axis_switch_by_date
  pub count : StartsWith long.axis_switch_count_by_date short.axis_switch_count_by_date
  pub recent :
      StartsWith long.recent_axis_switch_count_by_date short.recent_axis_switch_count_by_date
  pub bear : StartsWith long.prior_bear_by_date short.prior_bear_by_date

by_date-append {ℓ} :
    {A : Type ℓ} (days more : List ℕ) (xs ys : List A)
    → length days ≡ length xs
    → by_date (days ++ more) (xs ++ ys) ≡ by_date days xs ++ by_date more ys
unfolding by_date
by_date-append [] more [] ys same = refl
by_date-append [] more (x ∷ xs) ys same = absurd (omega arith)
by_date-append (day ∷ days) more [] ys same = absurd (omega arith)
by_date-append (day ∷ days) more (x ∷ xs) ys same =
    ap (◌∷◌ (day, x)) (by_date-append days more xs ys (omega arith))

length-map {ℓ κ} :
    {A : Type ℓ} {B : Type κ} (f : A → B) (xs : List A) → length (map f xs) ≡ length xs
length-map f [] = refl
length-map f (x ∷ xs) = ap suc (length-map f xs)

column_starts {ℓ} :
    {A : Type ℓ} (f : List StableRow → A) (days more : List ℕ) (rows later : List StableRow)
    → length days ≡ length rows
    → StartsWith
        (by_date (days ++ more) (map f (seen_at [] (rows ++ later))))
        (by_date days (map f (seen_at [] rows)))
column_starts f days more rows later same =
    let (rest, split) = seen_at-append [] rows later in
    let sizes = same ∙ sym (length-map f (seen_at [] rows) ∙ length-seen_at [] rows) in
    rw (split, map-++ f (seen_at [] rows) rest)
      (
        by_date more (map f rest),
        by_date-append days more (map f (seen_at [] rows)) (map f rest) sizes,
      )

described-Extends :
    (days more : List ℕ) (rows later : List StableRow)
    → length days ≡ length rows
    → Extends (described (days ++ more) (rows ++ later)) (described days rows)
unfolding described
described-Extends days more rows later same = record {
  changed = column_starts (λ seen. ltb 0 (switches_on seen)) days more rows later same;
  days = column_starts (days_back 60 0) days more rows later same;
  count = column_starts switches_on days more rows later same;
  recent = column_starts (switches_within 5) days more rows later same;
  bear = column_starts bear_before days more rows later same;
}

-- The frame of more sessions starts with the frame of the first ones.
frame_split :
    (labels : StableLabels) (days more : List ℕ) (all : List StableRow)
    → stable_frame labels (days ++ more) ≡ ok all
    → (rows : List StableRow) × (later : List StableRow) × (stable_frame labels days ≡ ok rows)
      × (length days ≡ length rows)
      × (all ≡ rows ++ later)
unfolding stable_frame
frame_split labels [] more all h = ([], all, refl, refl, refl)
frame_split labels (day ∷ days) more all h =
    let (row, first, h₁) = bind_ok (stable_row labels day) _ h in
    let (rest, framed, h₂) = bind_ok (stable_frame labels (days ++ more)) _ h₁ in
    let (rows, later, found, sizes, split) = frame_split labels days more rest framed in
    (
      row ∷ rows,
      later,
      rw (first, found) refl,
      ap suc sizes,
      sym (ok-injective h₂) ∙ ap (◌∷◌ row) split,
    )

-- The history has no lookahead: where it is built for some sessions and later ones, it is built for
-- the first ones alone, and each of its five dictionaries there is the beginning of the one that the
-- later sessions extend.
pub build_transition_risk_history_no_lookahead :
    (labels : StableLabels) (days more : List ℕ) (long : TransitionRiskHistory)
    → build_transition_risk_history labels (days ++ more) ≡ ok long
    → (short : TransitionRiskHistory) × (build_transition_risk_history labels days ≡ ok short)
      × Extends long short
build_transition_risk_history_no_lookahead labels days more long built =
    let same = build_transition_risk_history-eq-described labels (days ++ more) in
    let (all, framed, is_long) =
      bind_ok (stable_frame labels (days ++ more)) _ (sym same ∙ built) in
    let (rows, later, found, sizes, split) = frame_split labels days more all framed in
    (
      described days rows,
      build_transition_risk_history-eq-described labels days ∙ rw found refl,
      rw (← ok-injective is_long, split) (described-Extends days more rows later sizes),
    )
