-- ===== src/Transition/History/Seen.antt =====
-- The days seen up to each session, and columns computed from them.
use regime_detection.Prelude.Int.{int_eq}
use regime_detection.Prelude.{
  ℕ, suc, ◌≡◌, refl, ap, List, [], ◌∷◌, ◌++◌, map, nat_eq, string_eq, bool_eq, length, take,
}
use regime_detection.Transition.History.{rolling}

-- What was seen up to each session, newest first.
unfoldable pub seen_at {ℓ} : {A : Type ℓ} → List A → List A → List (List A)
seen_at seen [] = []
seen_at seen (x ∷ xs) = (x ∷ seen) ∷ seen_at (x ∷ seen) xs

-- A value for each day of some days that are newest first, from that day and those before it.
unfoldable pub newest {ℓ κ} : {A : Type ℓ} {B : Type κ} → (List A → B) → List A → List B
newest f [] = []
newest f (x ∷ xs) = f (x ∷ xs) ∷ newest f xs

-- What is seen of a column of such values.
pub seen_at-map {ℓ κ} :
    {A : Type ℓ} {B : Type κ} (f : List A → B) (seen xs : List A)
    → seen_at (newest f seen) (map f (seen_at seen xs)) ≡ map (newest f) (seen_at seen xs)
unfolding seen_at newest
seen_at-map f seen [] = refl
seen_at-map f seen (x ∷ xs) = ap (◌∷◌ (newest f (x ∷ seen))) (seen_at-map f (x ∷ seen) xs)

-- Rolling windows are cut from what was seen.
pub rolling_at {ℓ} :
    {A : Type ℓ} (n : ℕ) (seen xs : List A) → rolling n seen xs ≡ map (take n) (seen_at seen xs)
unfolding rolling seen_at
rolling_at n seen [] = refl
rolling_at n seen (x ∷ xs) = ap (◌∷◌ (take n (x ∷ seen))) (rolling_at n (x ∷ seen) xs)

pub map_each {ℓ κ} :
    {A : Type ℓ} {B : Type κ} (f g : A → B) (xs : List A)
    → ((x : A) → f x ≡ g x)
    → map f xs ≡ map g xs
map_each f g [] same = refl
map_each f g (x ∷ xs) same = rw (same x) (ap (◌∷◌ (g x)) (map_each f g xs same))

pub map-map {ℓ κ μ} :
    {A : Type ℓ} {B : Type κ} {C : Type μ} (f : B → C) (g : A → B) (xs : List A)
    → map f (map g xs) ≡ map (λ x. f (g x)) xs
map-map f g [] = refl
map-map f g (x ∷ xs) = ap (◌∷◌ (f (g x))) (map-map f g xs)

-- What earlier days have seen does not depend on later ones.
pub seen_at-append {ℓ} :
    {A : Type ℓ} (seen xs ys : List A)
    → (later : List (List A)) × (seen_at seen (xs ++ ys) ≡ seen_at seen xs ++ later)
unfolding seen_at
seen_at-append seen [] ys = (seen_at seen ys, refl)
seen_at-append seen (x ∷ xs) ys =
    let (later, same) = seen_at-append (x ∷ seen) xs ys in (later, ap (◌∷◌ (x ∷ seen)) same)

pub length-seen_at {ℓ} : {A : Type ℓ} (seen xs : List A) → length (seen_at seen xs) ≡ length xs
unfolding seen_at
length-seen_at seen [] = refl
length-seen_at seen (x ∷ xs) = ap suc (length-seen_at (x ∷ seen) xs)

pub map-++ {ℓ κ} :
    {A : Type ℓ} {B : Type κ} (f : A → B) (xs ys : List A) → map f (xs ++ ys) ≡ map f xs ++ map f ys
map-++ f [] ys = refl
map-++ f (x ∷ xs) ys = ap (◌∷◌ (f x)) (map-++ f xs ys)
