-- ===== src/EventCalendar/Rows.antt =====
-- The labels that the events paint.
use mathlib.Core.Path.{subst}
use regime_detection.Prelude.Int.{ℤ, int_eq}
use regime_detection.Prelude.{
  ℕ, String, ◌≡◌, refl, inl, inr, Bool, false, not, ◌&&◌, Option, none, some, List, [], ◌∷◌,
  Bool-cases, nat_eq, string_eq, bool_eq, any, Result, ok, err, ◌>>=◌, bind_ok, ok-injective,
}
use regime_detection.EventWindows.Expand.{index_of}
use regime_detection.EventCalendar.{
  EventRow, Masks, paint_days, window_slice, paint_at, is_unapproved, paint_label, paint_rows,
  label_for_event_type, window_offsets_for_row,
}
use regime_detection.EventCalendar.Painted.{
  Paints, Paints-none, Paints-both, Paints-same, in_days, paint_days-Paints,
}

-- The days on which an event at an index gives its label, where its window is known.
abbrev pub window_has : List ℕ → EventRow → String → ℕ → Result (ℤ × ℤ) → ℕ → String → Bool
window_has sessions row label event_idx (err raised) = λ d k. false
window_has sessions row label event_idx (ok offsets) =
    in_days label row.publication_date (window_slice sessions event_idx offsets)

abbrev pub at_index : List ℕ → EventRow → String → Option ℕ → ℕ → String → Bool
at_index sessions row label none = λ d k. false
at_index sessions row label (some event_idx) =
    window_has sessions row label event_idx (window_offsets_for_row label row.window_days)

abbrev pub labelled : List ℕ → EventRow → Option String → ℕ → String → Bool
labelled sessions row none = λ d k. false
labelled sessions row (some label) = λ d k.
    not (is_unapproved row label) && at_index sessions row label (index_of sessions row.date) d k

-- Whether an event gives a day a label: its type has the label in this version and it is approved where
-- it needs to be, its date is a session, and the day is in its window and not before its publication.
abbrev pub gives_label : Bool → List ℕ → ℕ → String → EventRow → Bool
gives_label allow_v2 sessions d k row =
    labelled sessions row (label_for_event_type allow_v2 row.event_type) d k

paint_window-Paints :
    (sessions : List ℕ) (row : EventRow) (label : String) (masks painted : Masks) (event_idx : ℕ)
    (offsets : Result (ℤ × ℤ))
    → (offsets >>= λ o.
        ok (paint_days label row.publication_date (window_slice sessions event_idx o) masks))
      ≡ ok painted
    → Paints (window_has sessions row label event_idx offsets) masks painted
paint_window-Paints sessions row label masks painted event_idx (err raised) h = cc
paint_window-Paints sessions row label masks painted event_idx (ok offsets) h =
    subst (Paints (window_has sessions row label event_idx (ok offsets)) masks) (ok-injective h)
      (paint_days-Paints label row.publication_date (window_slice sessions event_idx offsets) masks)

paint_at-Paints :
    (sessions : List ℕ) (row : EventRow) (label : String) (masks painted : Masks) (idx : Option ℕ)
    → paint_at sessions row label masks idx ≡ ok painted
    → Paints (at_index sessions row label idx) masks painted
unfolding paint_at
paint_at-Paints sessions row label masks painted none h = rw (← ok-injective h) (Paints-none masks)
paint_at-Paints sessions row label masks painted (some event_idx) h =
    paint_window-Paints sessions row label masks painted event_idx
      (window_offsets_for_row label row.window_days) h

paint_label-Paints :
    (sessions : List ℕ) (row : EventRow) (masks painted : Masks) (label : Option String)
    → paint_label sessions row masks label ≡ ok painted
    → Paints (labelled sessions row label) masks painted
unfolding paint_label
paint_label-Paints sessions row masks painted none h = rw (← ok-injective h) (Paints-none masks)
paint_label-Paints sessions row masks painted (some label) h =
    elim (Bool-cases (is_unapproved row label)) [
      | inl unapproved ↦
          let same : masks ≡ painted = ok-injective (rw unapproved at h) in
          Paints-same (λ d k. false) (labelled sessions row (some label)) masks painted
            (λ d k. rw unapproved refl) (rw (← same) (Paints-none masks))
      | inr approved ↦
          Paints-same (at_index sessions row label (index_of sessions row.date))
            (labelled sessions row (some label)) masks painted (λ d k. rw approved refl)
            (paint_at-Paints sessions row label masks painted (index_of sessions row.date)
              (rw approved at h))
    ]

-- After the events, a session has a label exactly when it had it before or an event gives it.
pub paint_rows-Paints :
    (allow_v2 : Bool) (sessions : List ℕ) (rows : List EventRow) (masks painted : Masks)
    → paint_rows allow_v2 sessions rows masks ≡ ok painted
    → Paints (λ d k. any (gives_label allow_v2 sessions d k) rows) masks painted
unfolding paint_rows
paint_rows-Paints allow_v2 sessions [] masks painted h = rw (← ok-injective h) (Paints-none masks)
paint_rows-Paints allow_v2 sessions (row ∷ rows) masks painted h =
    let label = label_for_event_type allow_v2 row.event_type in
    let (middle, first, rest) = bind_ok (paint_label sessions row masks label) _ h in
    Paints-both (labelled sessions row label) (λ d k. any (gives_label allow_v2 sessions d k) rows)
      masks middle painted (paint_label-Paints sessions row masks middle label first)
      (paint_rows-Paints allow_v2 sessions rows middle painted rest)
