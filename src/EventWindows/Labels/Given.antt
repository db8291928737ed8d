-- ===== src/EventWindows/Labels/Given.antt =====
-- The labels that a scheduled event gives a date (`_matching_scheduled_event_labels` of
-- src/regime_data_fetch/event_calendar.py).
use regime_detection.Prelude.Int.{pos_part, neg_part, sub_ℕ, ℤ, int_eq}
use regime_detection.Prelude.{
  ℕ, ◌+◌, ◌-◌, String, ◌≡◌, refl, sym, ap, ◌∙◌, inl, inr, Bool, false, ◌&&◌, ◌||◌, Option, none,
  some, List, [], ◌∷◌, ◌++◌, arith, if◌then◌else◌, Bool-cases, ◌==◌, nat_eq, string_eq, bool_eq,
  contains, ok, bind_ok, ok-injective,
}
use regime_detection.Prelude.Dict.{lookup, lookup-All}
use regime_detection.EventWindows.Expiry.Anchor.{Ascending}
use regime_detection.EventWindows.Labels.Covered.{is_between, Backward, window-between}
use regime_detection.EventWindows.Expand.{
  Schedule, index_of, expand_nyse_window_for_scheduled_event,
}
use regime_detection.EventWindows.Labels.{
  WindowSpec, ScheduledEvent, abs, scheduled_event_windows, own_window, spec_of, event_labels,
}

-- The bounds of an event's window: its own, or else those of its type.
abbrev pub offsets_for : Option (ℤ × ℤ) → WindowSpec → ℤ × ℤ
offsets_for (some own) spec = own
offsets_for none spec = (sub_ℕ 0 spec.lookback_days, spec.lookahead_days)

abbrev pub sessions_around : Schedule → ScheduledEvent → List ℕ
sessions_around schedule event = schedule (event.date - 14) (event.date + 14)

abbrev pub labelled_with : Schedule → ℕ → String → ScheduledEvent → Option WindowSpec → Bool
labelled_with schedule as_of label event none = false
labelled_with schedule as_of label event (some spec) =
    is_between (index_of (sessions_around schedule event) event.date)
      (index_of (sessions_around schedule event) as_of) (offsets_for event.window_days spec)
    && spec.label == label

-- Whether an event gives a date a label: the event is of a US or global market and of a known type that
-- has the label, and the index of the date in the sessions around the event is between the bounds of
-- the event's window.
abbrev pub is_labelled_by : Schedule → ℕ → String → ScheduledEvent → Bool
is_labelled_by schedule as_of label event =
    ("US" == event.market || "GLOBAL" == event.market)
    && labelled_with schedule as_of label event (lookup scheduled_event_windows event.event_type)

-- The sessions around an event ascend, and a window of its own starts at the event or before it and
-- does not end before it starts.
pub record IsRegular (schedule : Schedule) (event : ScheduledEvent) : Type 0 where
  pub ascending : Ascending (sessions_around schedule event)
  pub backward : (own : ℤ × ℤ) → event.window_days ≡ some own → Backward own

or_assoc : (a b c : Bool) → a || (b || c) ≡ (a || b) || c
or_assoc a b c = ground arith

pub contains-append :
    (xs ys : List String) (l : String) → contains (xs ++ ys) l ≡ contains xs l || contains ys l
contains-append [] ys l = refl
contains-append (x ∷ xs) ys l = rw (contains-append xs ys l) (or_assoc (x == l) _ _)

one_label :
    (b : Bool) (label l : String) → contains (if b then label ∷ [] else []) l ≡ b && label == l
one_label b label l = ground arith

negative_part : (n : ℕ) → (neg_part (sub_ℕ 0 n) ≡ n) × (pos_part (sub_ℕ 0 n) ≡ 0)
negative_part n = (ground arith, ground arith)

default-Backward : (n : ℕ) (e : ℤ) → neg_part e ≡ 0 → Backward (sub_ℕ 0 n, e)
default-Backward n e later = ((negative_part n).1, omega (arith, negative_part n, later))

abs_negative : (s : ℤ) → pos_part s ≡ 0 → neg_part s ≡ abs s
abs_negative s start = omega (arith, start)

-- The bounds of an event's window are those that the code looks back and ahead by.
covers-between :
    (schedule : Schedule) (as_of : ℕ) (event : ScheduledEvent) (type_spec : WindowSpec)
    (own : Option (ℤ × ℤ)) (window : List ℕ)
    → Ascending (sessions_around schedule event)
    → ((offsets : ℤ × ℤ) → own ≡ some offsets → Backward offsets)
    → neg_part type_spec.lookahead_days ≡ 0
    → expand_nyse_window_for_scheduled_event schedule event.date
        (own_window own type_spec).lookback_days
        (own_window own type_spec).lookahead_days
      ≡ ok window
    → contains window as_of
      ≡ is_between
          (index_of (sessions_around schedule event) event.date)
          (index_of (sessions_around schedule event) as_of)
          (offsets_for own type_spec)
covers-between schedule as_of event type_spec none window ascending backward later h =
    window-between schedule event.date as_of type_spec.lookback_days
      (sub_ℕ 0 type_spec.lookback_days) type_spec.lookahead_days window ascending
      (default-Backward type_spec.lookback_days type_spec.lookahead_days later)
      (negative_part type_spec.lookback_days).0 h
covers-between schedule as_of event type_spec (some (s, e)) window ascending backward later h =
    let is_backward = backward (s, e) refl in
    window-between schedule event.date as_of (abs s) s e window ascending is_backward
      (abs_negative s is_backward.0) h

own_label :
    (own : Option (ℤ × ℤ)) (type_spec : WindowSpec)
    → (own_window own type_spec).label ≡ type_spec.label
own_label none type_spec = refl
own_label (some (s, e)) type_spec = refl

event_labels-contains :
    (schedule : Schedule) (as_of : ℕ) (event : ScheduledEvent) (spec : Option WindowSpec)
    (added : List String) (label : String)
    → IsRegular schedule event
    → ((type_spec : WindowSpec) → spec ≡ some type_spec → neg_part type_spec.lookahead_days ≡ 0)
    → event_labels schedule as_of event spec ≡ ok added
    → contains added label ≡ labelled_with schedule as_of label event spec
unfolding event_labels
event_labels-contains schedule as_of event none added label regular later h =
    rw (← ok-injective h) refl
event_labels-contains schedule as_of event (some type_spec) added label regular later h =
    let spec = own_window event.window_days type_spec in
    let (window, expanded, is_added) =
      bind_ok
        (expand_nyse_window_for_scheduled_event schedule event.date spec.lookback_days
          spec.lookahead_days)
        _ h in
    rw (← ok-injective is_added) (
      one_label (contains window as_of) spec.label label
      ∙ rw
          (covers-between schedule as_of event type_spec event.window_days window regular.ascending
            regular.backward (later type_spec refl) expanded)
          (ap
            (λ l.
              is_between (index_of (sessions_around schedule event) event.date)
                (index_of (sessions_around schedule event) as_of)
                (offsets_for event.window_days type_spec)
              && l == label)
            (own_label event.window_days type_spec)))

-- The windows of the types end at the event or after it.
type_ends :
    (type : String) (type_spec : WindowSpec)
    → lookup scheduled_event_windows type ≡ some type_spec
    → neg_part type_spec.lookahead_days ≡ 0
type_ends type type_spec found =
    lookup-All (λ spec. neg_part spec.lookahead_days ≡ 0) scheduled_event_windows type type_spec
      (refl, (refl, (refl, (refl, (refl, (refl, (refl, (refl, (refl, (refl, tt)))))))))) found

or_last : (a b : Bool) → a || (b || false) ≡ a || b
or_last a b = ground arith

pub event-contains :
    (schedule : Schedule) (as_of : ℕ) (event : ScheduledEvent) (added : List String)
    (label : String)
    → IsRegular schedule event
    → event_labels schedule as_of event (spec_of event) ≡ ok added
    → contains added label ≡ is_labelled_by schedule as_of label event
event-contains schedule as_of event added label regular h =
    let markets = or_last ("US" == event.market) ("GLOBAL" == event.market) in
    elim (Bool-cases (contains ("US" ∷ "GLOBAL" ∷ []) event.market)) [
      | inl served ↦ rw (sym markets ∙ served) (
          event_labels-contains schedule as_of event
            (lookup scheduled_event_windows event.event_type) added label regular
            (type_ends event.event_type) (rw served at h))
      | inr other ↦ rw (sym markets ∙ other) (
          event_labels-contains schedule as_of event none added label regular (λ type_spec e. cc)
            (rw other at h))
    ]
