-- ===== src/EventWindows/Expand/Slices.antt =====
-- Slices of ascending sessions, by the indexes of the sessions.
use mathlib.Core.Path.{subst}
use regime_detection.Prelude.Int.{int_eq}
use regime_detection.Prelude.{
  some_inner, ℕ, zero, suc, ◌+◌, ◌<◌, ◌≡◌, refl, ◌∙◌, Bool, true, false, ◌&&◌, ◌||◌, some, List, [],
  ◌∷◌, arith, ltb, leb, ◌==◌, nat_eq, string_eq, bool_eq, contains, ==_refl, length, get_elem?,
  take, drop, All,
}
use regime_detection.EventWindows.Expiry.Anchor.{Ascending, All-contains}

or_true : (b : Bool) → b || true ≡ true
or_true b = ground arith

pub elem-contains : (days : List ℕ) (i d : ℕ) → get_elem? days i ≡ some d → contains days d ≡ true
elem-contains [] i d h = cc
elem-contains (x ∷ days) zero d h = let same = some_inner h in rw (same, ==_refl d) refl
elem-contains (x ∷ days) (suc i) d h = rw (elem-contains days i d h) (or_true (x == d))

below_absent : (days : List ℕ) (d : ℕ) → All (λ e. d < e) days → contains days d ≡ false
below_absent [] d above = refl
below_absent (x ∷ days) d (first, above) =
    let other : (x == d) ≡ false = ground arith in rw (other, below_absent days d above) refl

All-take : (n : ℕ) (days : List ℕ) (d : ℕ) → All (λ e. d < e) days → All (λ e. d < e) (take n days)
All-take zero days d above = tt
All-take (suc n) [] d above = tt
All-take (suc n) (x ∷ days) d (first, above) = (first, All-take n days d above)

All-drop : (n : ℕ) (days : List ℕ) (d : ℕ) → All (λ e. d < e) days → All (λ e. d < e) (drop n days)
All-drop zero days d above = above
All-drop (suc n) [] d above = tt
All-drop (suc n) (x ∷ days) d (first, above) = All-drop n days d above

pub elem-lt-length : (days : List ℕ) (i d : ℕ) → get_elem? days i ≡ some d → i < length days
elem-lt-length [] i d h = cc
elem-lt-length (x ∷ days) zero d h = omega arith
elem-lt-length (x ∷ days) (suc i) d h = let inside = elem-lt-length days i d h in omega arith

-- A day of ascending days is in a slice exactly when its index is.
pub contains-slice :
    (days : List ℕ) (start count i d : ℕ)
    → Ascending days
    → get_elem? days i ≡ some d
    → contains (take count (drop start days)) d ≡ leb start i && ltb i (start + count)
contains-slice [] start count i d ascending h = cc
contains-slice (x ∷ days) zero zero i d ascending h = ground arith
contains-slice (x ∷ days) zero (suc count) zero d ascending h =
    let same = some_inner h in rw (same, ==_refl d) ground arith
contains-slice (x ∷ days) zero (suc count) (suc i) d (above, ascending) h =
    let later = All-contains x days d above (elem-contains days i d h) in
    let other : (x == d) ≡ false = ground arith in
    rw (other, contains-slice days zero count i d ascending h) ground arith
contains-slice (x ∷ days) (suc start) count zero d (above, ascending) h =
    let first = some_inner h in
    let none_left = below_absent (take count (drop start days)) d (
      subst (λ y. All (λ e. y < e) (take count (drop start days))) first
        (All-take count (drop start days) x (All-drop start days x above))) in
    rw none_left (ground arith)
contains-slice (x ∷ days) (suc start) count (suc i) d (above, ascending) h =
    contains-slice days start count i d ascending h ∙ ground arith
