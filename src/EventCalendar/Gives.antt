-- ===== src/EventCalendar/Gives.antt =====
-- Which events give a session a label, by the indexes of the sessions (the tests and windows of
-- src/regime_detection/event_calendar.py).
use regime_detection.Prelude.Int.{ℤ, pos, negsuc, neg_part, ◌+ℤ◌, ◌≤ℤ◌, leb_ℤ, int_eq}
use regime_detection.Prelude.{
  ℕ, String, ◌≡◌, refl, sym, ap, inl, inr, Bool, true, false, not, ◌&&◌, ◌||◌, Option, none, some,
  List, [], ◌∷◌, arith, leb, if◌then◌else◌, Bool-cases, Option-cases, ◌==◌, nat_eq, string_eq,
  bool_eq, is_some_of, any, get_elem?, All, ok, err, Result, ◌⊎◌, ==_refl,
}
use regime_detection.Prelude.Dict.{lookup-All, lookup}
use regime_detection.EventWindows.Expand.{index_of}
use regime_detection.EventWindows.Expiry.Anchor.{Ascending}
use regime_detection.EventCalendar.{
  EventRow, type_to_label, v2_type_to_label, windows, label_for_event_type, window_offsets_for_row,
  is_unapproved, first_of,
}
use regime_detection.EventCalendar.Index.{window_slice-IsBetween}
use regime_detection.EventCalendar.Rows.{gives_label, window_has, at_index, labelled}

-- Whether the type of an event has a label: the types of version 1 always, the others where they are
-- allowed.
abbrev pub has_label : Bool → String → String → Bool
has_label allow_v2 event_type k =
    is_some_of (lookup type_to_label event_type) k
    || (allow_v2 && is_some_of (lookup v2_type_to_label event_type) k)

abbrev pub is_approved : EventRow → String → Bool
is_approved row k =
    not (k == "geopolitical_event") || is_some_of row.approved_label "geopolitical_event"

-- The window of an event: its own, or else that of its label.
abbrev pub offsets_of : String → Option (ℤ × ℤ) → Option (ℤ × ℤ)
offsets_of k (some own) = some own
offsets_of k none = lookup windows k

-- An index is between the bounds of a window, counted from an event's index.
abbrev pub is_between : Option ℕ → Option (ℤ × ℤ) → ℕ → Bool
is_between (some event_idx) (some (start_offset, end_offset)) i =
    leb_ℤ (pos event_idx +ℤ start_offset) (pos i) && leb_ℤ (pos i) (pos event_idx +ℤ end_offset)
is_between _ _ i = false

-- Whether an event gives a session at an index a label.
abbrev pub is_given_by : Bool → List ℕ → ℕ → ℕ → String → EventRow → Bool
is_given_by allow_v2 sessions i d k row =
    has_label allow_v2 row.event_type k
    && (is_approved row k
        && (is_between (index_of sessions row.date) (offsets_of k row.window_days) i
            && leb row.publication_date d))

-- No window of an event's own ends before the session before the first.
abbrev pub EndsInside : List ℕ → EventRow → Type 0
EndsInside sessions row =
    (event_idx : ℕ) (start_offset end_offset : ℤ)
    → index_of sessions row.date ≡ some event_idx
    → row.window_days ≡ some (start_offset, end_offset)
    → negsuc 0 ≤ℤ pos event_idx +ℤ end_offset

-- The type of an event is in at most one of the tables.
one_table :
    (event_type : String)
    → (lookup type_to_label event_type ≡ none) ⊎ (lookup v2_type_to_label event_type ≡ none)
one_table event_type = elim (Bool-cases ("FOMC" == event_type)) [
  | inl fomc ↦
      inr (ap (lookup v2_type_to_label) (sym ((string_eq.eq_test_iff "FOMC" event_type).0 fomc)))
  | inr not_fomc ↦ elim (Bool-cases ("CPI" == event_type)) [
    | inl cpi ↦
        inr (ap (lookup v2_type_to_label) (sym ((string_eq.eq_test_iff "CPI" event_type).0 cpi)))
    | inr not_cpi ↦ elim (Bool-cases ("NFP" == event_type)) [
      | inl nfp ↦
          inr (ap (lookup v2_type_to_label) (sym ((string_eq.eq_test_iff "NFP" event_type).0 nfp)))
      | inr not_nfp ↦ inl (rw (not_fomc, not_cpi, not_nfp) refl)
    ]
  ]
]

or_none : (a : Bool) → a ≡ a || false
or_none a = ground arith

first_of-is_some_of :
    (one two : Option String) (allow_v2 : Bool) (k : String)
    → (one ≡ none) ⊎ (two ≡ none)
    → is_some_of (first_of one (if allow_v2 then two else none)) k
      ≡ is_some_of one k || (allow_v2 && is_some_of two k)
first_of-is_some_of none two true k h = refl
first_of-is_some_of none two false k h = refl
first_of-is_some_of (some label) two false k h = or_none (label == k)
first_of-is_some_of (some label) two true k (inl absent) = cc
first_of-is_some_of (some label) two true k (inr absent) = rw absent (or_none (label == k))

label-has_label :
    (allow_v2 : Bool) (event_type k : String)
    → is_some_of (label_for_event_type allow_v2 event_type) k ≡ has_label allow_v2 event_type k
label-has_label allow_v2 event_type k =
    first_of-is_some_of (lookup type_to_label event_type) (lookup v2_type_to_label event_type)
      allow_v2 k (one_table event_type)

ends_after :
    (event_idx : ℕ) (offset : ℤ) → neg_part offset ≡ 0 → negsuc 0 ≤ℤ pos event_idx +ℤ offset
unfolding ◌+ℤ◌
ends_after event_idx (pos n) h = ground arith
ends_after event_idx (negsuc n) h = cc

default_ends :
    (k : String) (offsets : ℤ × ℤ) (event_idx : ℕ)
    → lookup windows k ≡ some offsets
    → negsuc 0 ≤ℤ pos event_idx +ℤ offsets.1
default_ends k offsets event_idx found = ends_after event_idx offsets.1 (
    lookup-All (λ o. neg_part o.1 ≡ 0) windows k offsets
      (refl, (refl, (refl, (refl, (refl, (refl, (refl, tt))))))) found)

drop_test : (a b : Bool) → a && (b && true) ≡ a && b
drop_test a b = ground arith

and_never : (a : Bool) → a && false ≡ false
and_never a = ground arith

never : (a b : Bool) → a && (b && false) ≡ false
never a b = ground arith

approved_test : (a b : Bool) → not (a && not b) ≡ not a || b
approved_test a b = ground arith

module _ (sessions : List ℕ) (i d : ℕ) (ascending : Ascending sessions)
    (at : get_elem? sessions i ≡ some d) where
  window-between :
      (row : EventRow) (k : String) (event_idx : ℕ) (offsets : ℤ × ℤ)
      → negsuc 0 ≤ℤ pos event_idx +ℤ offsets.1
      → window_has sessions row k event_idx (ok offsets) d k
        ≡ is_between (some event_idx) (some offsets) i && leb row.publication_date d
  window-between row k event_idx (start_offset, end_offset) ends =
      rw
        (
          window_slice-IsBetween sessions event_idx i d start_offset end_offset ascending at ends,
          ==_refl k,
        )
        (drop_test _ (leb row.publication_date d))

  offsets-between :
      (row : EventRow) (k : String) (event_idx : ℕ) (own : Option (ℤ × ℤ))
      → ((start_offset end_offset : ℤ)
          → own ≡ some (start_offset, end_offset)
          → negsuc 0 ≤ℤ pos event_idx +ℤ end_offset)
      → window_has sessions row k event_idx (window_offsets_for_row k own) d k
        ≡ is_between (some event_idx) (offsets_of k own) i && leb row.publication_date d
  offsets-between row k event_idx (some offsets) ends =
      window-between row k event_idx offsets (ends offsets.0 offsets.1 refl)
  offsets-between row k event_idx none ends = elim (Option-cases (lookup windows k)) [
    | inl absent ↦ rw absent refl
    | inr (offsets, found) ↦
        rw found (window-between row k event_idx offsets (default_ends k offsets event_idx found))
  ]

  index-between :
      (row : EventRow) (k : String)
      → EndsInside sessions row
      → at_index sessions row k (index_of sessions row.date) d k
        ≡ is_between (index_of sessions row.date) (offsets_of k row.window_days) i
          && leb row.publication_date d
  index-between row k ends = elim (Option-cases (index_of sessions row.date)) [
    | inl absent ↦ rw absent refl
    | inr (event_idx, found) ↦ rw found (
        offsets-between row k event_idx row.window_days
          (λ start_offset end_offset. ends event_idx start_offset end_offset found))
  ]

  other_offsets :
      (row : EventRow) (label k : String) (event_idx : ℕ) (offsets : Result (ℤ × ℤ))
      → (label == k) ≡ false
      → window_has sessions row label event_idx offsets d k ≡ false
  other_offsets row label k event_idx (err raised) other = refl
  other_offsets row label k event_idx (ok offsets) other = rw other (never _ _)

  other_index :
      (row : EventRow) (label k : String) (idx : Option ℕ)
      → (label == k) ≡ false
      → at_index sessions row label idx d k ≡ false
  other_index row label k none other = refl
  other_index row label k (some event_idx) other =
      other_offsets row label k event_idx (window_offsets_for_row label row.window_days) other

  labelled-given :
      (row : EventRow) (k : String) (label : Option String)
      → EndsInside sessions row
      → labelled sessions row label d k
        ≡ is_some_of label k
          && (is_approved row k
              && (is_between (index_of sessions row.date) (offsets_of k row.window_days) i
                  && leb row.publication_date d))
  labelled-given row k none ends = refl
  labelled-given row k (some label) ends = elim (Bool-cases (label == k)) [
    | inr other ↦
        rw (other, other_index row label k (index_of sessions row.date) other)
          (and_never (not (is_unapproved row label)))
    | inl same ↦
        let is_k : label ≡ k = (string_eq.eq_test_iff label k).0 same in
        rw
          (
            same,
            is_k,
            index-between row k ends,
            approved_test (k == "geopolitical_event")
                (is_some_of row.approved_label "geopolitical_event"),
          )
          refl
  ]

  -- What an event gives, by the code's tests and by the indexes.
  pub rows-given :
      (allow_v2 : Bool) (k : String) (rows : List EventRow)
      → All (EndsInside sessions) rows
      → any (gives_label allow_v2 sessions d k) rows
        ≡ any (is_given_by allow_v2 sessions i d k) rows
  rows-given allow_v2 k [] ends = refl
  rows-given allow_v2 k (row ∷ rows) (here, later) =
      rw
        (
          labelled-given row k (label_for_event_type allow_v2 row.event_type) here,
          label-has_label allow_v2 row.event_type k,
          rows-given allow_v2 k rows later,
        )
        refl
