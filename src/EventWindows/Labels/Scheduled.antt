-- ===== src/EventWindows/Labels/Scheduled.antt =====
-- Which events label a date, and what an event does that has no window.
use regime_detection.Prelude.Int.{ℤ, pos, ◌+ℤ◌, leb_ℤ, int_eq}
use regime_detection.Prelude.{
  event_calendar_fetch_error, ℕ, ◌+◌, ◌-◌, String, ◌≡◌, refl, All, ◌⊎◌, inl, inr, false, ◌||◌,
  Option, none, some, List, [], ◌∷◌, ◌++◌, ltb, if◌then◌else◌, Bool-cases, nat_eq, string_eq,
  bool_eq, contains, length, any, Result, ok, err, ◌>>=◌, bind_ok, ok-injective,
}
use regime_detection.EventWindows.Dates.{Date, to_ordinal}
use regime_detection.EventWindows.Expand.{
  Schedule, index_of, window_at, expand_nyse_window_for_scheduled_event,
}
use regime_detection.EventWindows.Expand.Around.{expand_absent}
use regime_detection.EventWindows.Labels.Given.{
  IsRegular, is_labelled_by, contains-append, event-contains,
}
use regime_detection.EventWindows.Labels.{
  WindowSpec, ScheduledEvent, own_window, spec_of, event_labels, matching_scheduled_event_labels,
  matching_events, resolve_event_label,
}

-- Where the sessions around each event ascend, and a window of an event's own starts at the event or
-- before it and does not end before it starts, the labels that scheduled events give a date are those of
-- the events of a US or global market and of a known type whose window covers the date: the index of the
-- date in the sessions around the event is between the bounds of the event's own window, or else those
-- of its type, counted from the index of the event.
pub matching_scheduled_event_labels-IsAny :
    (schedule : Schedule) (as_of : ℕ) (events : List ScheduledEvent) (labels : List String)
    (label : String)
    → All (IsRegular schedule) events
    → matching_scheduled_event_labels schedule as_of events ≡ ok labels
    → contains labels label ≡ any (is_labelled_by schedule as_of label) events
unfolding matching_scheduled_event_labels
matching_scheduled_event_labels-IsAny schedule as_of [] labels label regular h =
    rw (← ok-injective h) refl
matching_scheduled_event_labels-IsAny schedule as_of (event ∷ events) labels label (regular, others)
      h =
    let (added, here, h₁) = bind_ok (event_labels schedule as_of event (spec_of event)) _ h in
    let (later, rest, is_labels) =
      bind_ok (matching_scheduled_event_labels schedule as_of events) _ h₁ in
    rw
      (
        ← ok-injective is_labels,
        contains-append added later label,
        event-contains schedule as_of event added label regular here,
        matching_scheduled_event_labels-IsAny schedule as_of events later label others rest,
      )
      refl

-- An event fails with the fetch error or not at all.
OnlyFetchError {ℓ} : {A : Type ℓ} → Result A → Type ℓ
OnlyFetchError {A} outcome =
    ((value : A) × (outcome ≡ ok value)) ⊎ (outcome ≡ err event_calendar_fetch_error)

window_at-OnlyFetchError :
    (days : List ℕ) (lookback : ℕ) (lookahead : ℤ) (index : Option ℕ)
    → OnlyFetchError (window_at event_calendar_fetch_error days lookback lookahead index)
unfolding OnlyFetchError window_at
window_at-OnlyFetchError days lookback lookahead none = inr refl
window_at-OnlyFetchError days lookback lookahead (some i) =
    elim (Bool-cases (ltb i lookback || leb_ℤ (pos (length days)) (pos i +ℤ lookahead))) [
      | inl raises ↦ rw raises (inr refl)
      | inr fits ↦ rw fits (inl (_, refl))
    ]

bind-OnlyFetchError {ℓ κ} :
    {A : Type ℓ} {B : Type κ} (first : Result A) (following : A → Result B)
    → OnlyFetchError first
    → ((value : A) → OnlyFetchError (following value))
    → OnlyFetchError (first >>= following)
unfolding OnlyFetchError
bind-OnlyFetchError first following (inl (value, h)) next = rw h (next value)
bind-OnlyFetchError first following (inr h) next = rw h (inr refl)

event_labels-OnlyFetchError :
    (schedule : Schedule) (as_of : ℕ) (event : ScheduledEvent) (spec : Option WindowSpec)
    → OnlyFetchError (event_labels schedule as_of event spec)
unfolding event_labels OnlyFetchError expand_nyse_window_for_scheduled_event
event_labels-OnlyFetchError schedule as_of event none = inl ([], refl)
event_labels-OnlyFetchError schedule as_of event (some type_spec) =
    let spec = own_window event.window_days type_spec in
    let days = schedule (event.date - 14) (event.date + 14) in
    bind-OnlyFetchError _ (λ window. ok (if contains window as_of then spec.label ∷ [] else []))
      (window_at-OnlyFetchError days spec.lookback_days spec.lookahead_days
        (index_of days event.date))
      (λ window. inl (if contains window as_of then spec.label ∷ [] else [], refl))

-- The events are read in order, so an event that fails ends the reading with the same error as any
-- failure before it.
failing_event :
    (schedule : Schedule) (as_of : ℕ) (earlier later : List ScheduledEvent) (bad : ScheduledEvent)
    → event_labels schedule as_of bad (spec_of bad) ≡ err event_calendar_fetch_error
    → matching_scheduled_event_labels schedule as_of (earlier ++ (bad ∷ later))
      ≡ err event_calendar_fetch_error
unfolding matching_scheduled_event_labels OnlyFetchError
failing_event schedule as_of [] later bad h = rw h refl
failing_event schedule as_of (event ∷ earlier) later bad h =
    let rest = failing_event schedule as_of earlier later bad h in
    elim (event_labels-OnlyFetchError schedule as_of event (spec_of event)) [
      | inl (added, here) ↦ rw (here, rest) refl
      | inr raises ↦ rw raises refl
    ]

-- One scheduled event on a day without a session fails the label of every date: where an event of a US
-- or global market and of a known type falls on a day that is not a session, `resolve_event_label`
-- raises the fetch error for any date, however far from the event, whatever the other events are.
pub resolve_event_label_holiday_event :
    (schedule : Schedule) (as_of : Date) (earlier later : List ScheduledEvent)
    (bad : ScheduledEvent) (type_spec : WindowSpec)
    → spec_of bad ≡ some type_spec
    → contains (schedule (bad.date - 14) (bad.date + 14)) bad.date ≡ false
    → resolve_event_label schedule as_of (earlier ++ (bad ∷ later)) ≡ err event_calendar_fetch_error
unfolding resolve_event_label matching_events event_labels
resolve_event_label_holiday_event schedule as_of earlier later bad type_spec known holiday =
    let spec = own_window bad.window_days type_spec in
    let absent =
      (expand_absent schedule bad.date spec.lookback_days spec.lookahead_days holiday).1 in
    let fails : event_labels schedule (to_ordinal as_of) bad (spec_of bad)
        ≡ err event_calendar_fetch_error =
      rw known (rw absent refl) in
    rw (failing_event schedule (to_ordinal as_of) earlier later bad fails) refl
