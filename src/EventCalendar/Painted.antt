-- ===== src/EventCalendar/Painted.antt =====
-- What painting does to the masks of sessions.
use regime_detection.Prelude.Int.{int_eq}
use regime_detection.Prelude.{
  ℕ, String, ◌≡◌, refl, sym, ap, ◌∙◌, inl, inr, Bool, true, false, ◌&&◌, ◌||◌, List, [], ◌∷◌, arith,
  ltb, leb, if◌then◌else◌, Bool-cases, ◌==◌, nat_eq, string_eq, bool_eq, contains,
}
use regime_detection.Prelude.Dict.{has_key}
use regime_detection.EventCalendar.{Masks, paint_day, paint_days}

-- Whether the mask of a day has a label.
unfoldable pub mask_has : Masks → ℕ → String → Bool
mask_has [] d label = false
mask_has ((e, mask) ∷ masks) d label =
    let rest = mask_has masks d label in if e == d then contains mask label else rest

-- The masks of the same sessions, where a test says which labels a session gained.
pub record Paints (test : ℕ → String → Bool) (before after : Masks) : Type 0 where
  pub sessions : (d : ℕ) → has_key after d ≡ has_key before d
  pub gained :
      (d : ℕ) (label : String)
      → mask_has after d label ≡ mask_has before d label || (has_key before d && test d label)

or_none : (a b : Bool) → a ≡ a || (b && false)
or_none a b = ground arith

gains : (a s t u : Bool) → (a || (s && t)) || (s && u) ≡ a || (s && (t || u))
gains a s t u = ground arith

pub Paints-none : (masks : Masks) → Paints (λ d label. false) masks masks
Paints-none masks = record {
  sessions = λ d. refl;
  gained = λ d label. or_none (mask_has masks d label) (has_key masks d);
}

pub Paints-both :
    (t u : ℕ → String → Bool) (a b c : Masks)
    → Paints t a b
    → Paints u b c
    → Paints (λ d label. t d label || u d label) a c
Paints-both t u a b c first second = record {
  sessions = λ d. second.sessions d ∙ first.sessions d;
  gained = λ d label.
      rw (second.gained d label, first.gained d label, first.sessions d)
        (gains (mask_has a d label) (has_key a d) (t d label) (u d label));
}

pub Paints-same :
    (t u : ℕ → String → Bool) (a b : Masks)
    → ((d : ℕ) (label : String) → t d label ≡ u d label)
    → Paints t a b
    → Paints u a b
Paints-same t u a b same painted = record {
  sessions = painted.sessions;
  gained = λ d label. painted.gained d label ∙ rw (same d label) refl;
}

key-paint_day :
    (label : String) (day : ℕ) (masks : Masks) (d : ℕ)
    → has_key (paint_day label day masks) d ≡ has_key masks d
unfolding paint_day
key-paint_day label day [] d = refl
key-paint_day label day ((e, mask) ∷ masks) d = elim (Bool-cases (e == day)) [
  | inl here ↦ rw (here, key-paint_day label day masks d) refl
  | inr there ↦ rw (there, key-paint_day label day masks d) refl
]

swap_or : (a b : Bool) → a || b ≡ b || (true && (true && a))
swap_or a b = ground arith

same_day : (e day d : ℕ) → (e == day) ≡ true → (day == d) ≡ (e == d)
same_day e day d here = ap (λ x. x == d) (sym ((nat_eq.eq_test_iff e day).0 here))

other_day : (e day d : ℕ) → (e == day) ≡ false → (e == d) ≡ true → (day == d) ≡ false
other_day e day d there here = ground arith

mask-paint_day :
    (label : String) (day : ℕ) (masks : Masks) (d : ℕ) (k : String)
    → mask_has (paint_day label day masks) d k
      ≡ mask_has masks d k || (has_key masks d && (day == d && label == k))
unfolding paint_day mask_has
mask-paint_day label day [] d k = refl
mask-paint_day label day ((e, mask) ∷ masks) d k = elim (Bool-cases (e == day)) [
  | inl here ↦ elim (Bool-cases (e == d)) [
    | inl found ↦
        rw (here, found, same_day e day d here ∙ found) (swap_or (label == k) (contains mask k))
    | inr other ↦ rw (here, other) (mask-paint_day label day masks d k)
  ]
  | inr there ↦ elim (Bool-cases (e == d)) [
    | inl found ↦ rw (there, found, other_day e day d there found) (or_none (contains mask k) true)
    | inr other ↦ rw (there, other) (mask-paint_day label day masks d k)
  ]
]

paint_day-Paints :
    (label : String) (day : ℕ) (masks : Masks)
    → Paints (λ d k. day == d && label == k) masks (paint_day label day masks)
paint_day-Paints label day masks = record {
  sessions = key-paint_day label day masks;
  gained = mask-paint_day label day masks;
}

early_day :
    (day publication d : ℕ) (c s : Bool)
    → ltb day publication ≡ true
    → (c && (leb publication d && s)) ≡ ((day == d || c) && (leb publication d && s))
early_day day publication d c s early = ground arith

later_day :
    (day publication d : ℕ) (c s : Bool)
    → ltb day publication ≡ false
    → (day == d && s) || (c && (leb publication d && s))
      ≡ ((day == d || c) && (leb publication d && s))
later_day day publication d c s published = ground arith

-- The days of a window that are not before the publication gain the label.
abbrev pub in_days : String → ℕ → List ℕ → ℕ → String → Bool
in_days label publication days d k = contains days d && (leb publication d && label == k)

pub paint_days-Paints :
    (label : String) (publication : ℕ) (days : List ℕ) (masks : Masks)
    → Paints (in_days label publication days) masks (paint_days label publication days masks)
unfolding paint_days
paint_days-Paints label publication [] masks = Paints-none masks
paint_days-Paints label publication (day ∷ days) masks = elim (Bool-cases (ltb day publication)) [
  | inl early ↦ rw early (
      Paints-same _ _ masks _
        (λ d k. early_day day publication d (contains days d) (label == k) early)
        (paint_days-Paints label publication days masks))
  | inr published ↦ rw published (
      Paints-same _ _ masks _
        (λ d k. later_day day publication d (contains days d) (label == k) published)
        (Paints-both _ _ masks (paint_day label day masks) _ (paint_day-Paints label day masks)
          (paint_days-Paints label publication days (paint_day label day masks))))
]
