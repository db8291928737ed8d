-- ===== src/EventWindows/Labels/First.antt =====
-- The primary label is the first matching one in order of precedence.
use regime_detection.Prelude.Int.{int_eq}
use regime_detection.Prelude.{
  String, ◌≡◌, refl, sym, ap, ◌∙◌, ◌⊎◌, inl, inr, Bool, true, false, List, [], ◌∷◌, ◌++◌,
  Bool-cases, nat_eq, string_eq, bool_eq, contains, any, ok, bind_ok, ok-injective,
}
use regime_detection.EventWindows.Dates.{Date}
use regime_detection.EventWindows.Expand.{Schedule}
use regime_detection.EventWindows.Labels.{
  ScheduledEvent, EventLabelResolution, event_precedence, matching_events, keep_labels,
  resolution_of, resolve_event_label,
}

-- The labels of the precedence that match, where the first stands and what is behind it.
pub record IsFirstMatch (matching : List String) (r : EventLabelResolution) : Type 0 where
  pub higher : List String
  pub lower : List String
  pub order : event_precedence ≡ higher ++ (r.primary_label ∷ lower)
  pub none_higher : any (contains matching) higher ≡ false
  pub matches : contains matching r.primary_label ≡ true
  pub others : r.matching_labels ≡ r.primary_label ∷ keep_labels (contains matching) lower

abbrev pub Resolves : List String → EventLabelResolution → Type 0
Resolves matching r =
    ((any (contains matching) event_precedence ≡ false)
      × (r
          ≡ record { matching_labels = "normal_calendar" ∷ []; primary_label = "normal_calendar" }))
    ⊎ IsFirstMatch matching r

record Split (test : String → Bool) (labels : List String) (l : String) (ls : List String)
    : Type 0 where
  higher : List String
  lower : List String
  order : labels ≡ higher ++ (l ∷ lower)
  none_higher : any test higher ≡ false
  matches : test l ≡ true
  others : ls ≡ keep_labels test lower

keep_none :
    (test : String → Bool) (labels : List String)
    → keep_labels test labels ≡ []
    → any test labels ≡ false
keep_none test [] h = refl
keep_none test (x ∷ labels) h = elim (Bool-cases (test x)) [
  | inl kept ↦ let absurd = rw kept at h in cc
  | inr dropped ↦ rw (dropped, keep_none test labels (rw dropped at h)) refl
]

keep-Split :
    (test : String → Bool) (labels : List String) (l : String) (ls : List String)
    → keep_labels test labels ≡ l ∷ ls
    → Split test labels l ls
keep-Split test [] l ls h = cc
keep-Split test (x ∷ labels) l ls h = elim (Bool-cases (test x)) [
  | inl kept ↦
      let found = rw kept at h in
      let here : x ≡ l = cc in
      let behind : keep_labels test labels ≡ ls = cc in
      record {
        higher = [];
        lower = labels;
        order = ap (λ y. y ∷ labels) here;
        none_higher = refl;
        matches = ap test (sym here) ∙ kept;
        others = sym behind;
      }
  | inr dropped ↦
      let rest = keep-Split test labels l ls (rw dropped at h) in
      record {
        higher = x ∷ rest.higher;
        lower = rest.lower;
        order = ap (◌∷◌ x) rest.order;
        none_higher = rw (dropped, rest.none_higher) refl;
        matches = rest.matches;
        others = rest.others;
      }
]

resolution-Resolves :
    (matching kept : List String)
    → keep_labels (contains matching) event_precedence ≡ kept
    → Resolves matching (resolution_of kept)
resolution-Resolves matching [] h = inl (keep_none (contains matching) event_precedence h, refl)
resolution-Resolves matching (l ∷ ls) h =
    let split = keep-Split (contains matching) event_precedence l ls h in
    inr (record {
      higher = split.higher;
      lower = split.lower;
      order = split.order;
      none_higher = split.none_higher;
      matches = split.matches;
      others = ap (◌∷◌ l) split.others;
    })

-- A resolved date has the first matching label of the precedence as its primary label: no label before
-- it matches, it does, and the matching labels are it and those after it that match, in the order of
-- the precedence. Where no label of the precedence matches, the date is a normal one.
pub resolve_event_label-IsFirst :
    (schedule : Schedule) (as_of : Date) (events : List ScheduledEvent) (r : EventLabelResolution)
    → resolve_event_label schedule as_of events ≡ ok r
    → (matching : List String) × (matching_events schedule as_of events ≡ ok matching)
      × Resolves matching r
unfolding resolve_event_label
resolve_event_label-IsFirst schedule as_of events r resolved =
    let (matching, found, is_r) = bind_ok (matching_events schedule as_of events) _ resolved in
    (
      matching,
      found,
      rw (← ok-injective is_r)
          (resolution-Resolves matching (keep_labels (contains matching) event_precedence) refl),
    )
