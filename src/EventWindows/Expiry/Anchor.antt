-- ===== src/EventWindows/Expiry/Anchor.antt =====
-- The anchor of a month: the third Friday, or the session before it.
use regime_detection.Prelude.Int.{int_eq}
use regime_detection.Prelude.{
  some_inner, ℕ, ◌+◌, ◌≤◌, ◌<◌, ◌≡◌, refl, ap, ◌∙◌, ◌≢◌, inl, inr, Bool, true, false, Option, none,
  some, List, [], ◌∷◌, arith, ltb, leb, if◌then◌else◌, leb→le, le→leb, Bool-cases, Option-cases,
  ◌==◌, nat_eq, string_eq, bool_eq, contains, All, runtime_error, Result, ok, err,
}
use regime_detection.Calendar.{keep, max_of}
use regime_detection.Calendar.Neighbors.{
  max_none, max-contains, max_bound, contains-keep, keep-contains,
}
use regime_detection.EventWindows.Dates.{Date, to_ordinal, weekday, friday}
use regime_detection.EventWindows.Dates.Weekdays.{
  column_days_start, column-weekday, make_date-ok, days_in_month_bounds, first_in_column,
  month_start, weekday_lt,
}
use regime_detection.EventWindows.Expand.{Schedule}
use regime_detection.EventWindows.Expiry.{
  third_friday, month_sessions, last_prior, compute_monthly_options_expiry_anchor,
}

-- The day of the third Friday.
abbrev pub third_friday_day : ℕ → ℕ → ℕ
third_friday_day y m = first_in_column (month_start y m) friday + 14

friday_range :
    (first : ℕ)
    → first < 7
    → (1 ≤ first_in_column first friday) × (first_in_column first friday ≤ 7)
friday_range first h = ground arith

abbrev dated : ℕ → ℕ → ℕ → Date
dated y m d = record { year = y; month = m; day = d }

third_friday-date :
    (y m : ℕ)
    → 1 ≤ y
    → y ≤ 9_999
    → 1 ≤ m
    → m ≤ 12
    → third_friday y m ≡ ok (dated y m (third_friday_day y m))
unfolding third_friday
third_friday-date y m y1 y2 m1 m2 =
    let (rest, column) = column_days_start y m friday (omega arith) in
    let (low, high) = friday_range (month_start y m) (weekday_lt (to_ordinal (dated y m 1))) in
    let (least, most) = days_in_month_bounds y m in
    rw column (
      make_date-ok y m (third_friday_day y m) y1 y2 m1 m2 (omega (arith, low))
        (omega (arith, high, least)))

-- The third Friday of a month exists in every year that datetime knows: `third_friday` raises nothing,
-- and its date is a Friday from the 15th to the 21st.
pub third_friday-IsFriday :
    (y m : ℕ)
    → 1 ≤ y
    → y ≤ 9_999
    → 1 ≤ m
    → m ≤ 12
    → (day : ℕ) × (15 ≤ day)
      × (day ≤ 21)
      × (third_friday y m ≡ ok (record { year = y; month = m; day = day }))
      × (weekday (to_ordinal (record { year = y; month = m; day = day })) ≡ friday)
third_friday-IsFriday y m y1 y2 m1 m2 =
    let (low, high) = friday_range (month_start y m) (weekday_lt (to_ordinal (dated y m 1))) in
    (
      third_friday_day y m,
      omega (arith, low),
      omega (arith, high),
      third_friday-date y m y1 y2 m1 m2,
      column-weekday y m friday 2 (omega arith),
    )

abbrev pub Ascending : List ℕ → Type 0
Ascending [] = Unit
Ascending (d ∷ ds) = All (λ e. d < e) ds × Ascending ds

-- The latest of some sessions, or the failure where there is none.
abbrev pub latest : Option ℕ → Result ℕ
latest none = err runtime_error
latest (some d) = ok d

pub All-contains :
    (d : ℕ) (days : List ℕ) (e : ℕ) → All (λ e'. d < e') days → contains days e ≡ true → d < e
All-contains d [] e above inside = cc
All-contains d (x ∷ days) e (first, above) inside = elim (Bool-cases (x == e)) [
  | inl here ↦ let same = (nat_eq.eq_test_iff x e).0 here in omega arith
  | inr later ↦ All-contains d days e above (rw later at inside)
]

max-not-empty : (d : ℕ) (days : List ℕ) → max_of (d ∷ days) ≢ none
max-not-empty d days empty = elim (Option-cases (max_of days)) [
  | inl none_left ↦ let absurd = rw none_left at empty in cc
  | inr (m, found) ↦ let absurd = rw found at empty in cc
]

-- The latest of later days stays the latest.
max-skip :
    (d : ℕ) (days : Option ℕ) (m : ℕ)
    → days ≡ some m
    → d < m
    → latest days ≡ latest (elim days [ none ↦ some d | some k ↦ some (if ltb k d then d else k) ])
max-skip d none m found below = cc
max-skip d (some k) m found below =
    let same : k ≡ m = some_inner found in let kept : ltb k d ≡ false = ground arith in rw kept refl

-- The last of ascending sessions is the latest.
last-latest : (days : List ℕ) → Ascending days → last_prior days ≡ latest (max_of days)
last-latest [] ascending = refl
last-latest (d ∷ []) ascending = refl
last-latest (d ∷ e ∷ days) (above, ascending) = elim (Option-cases (max_of (e ∷ days))) [
  | inl empty ↦ absurd (max-not-empty e days empty)
  | inr (m, found) ↦
      let later = All-contains d (e ∷ days) m above (max-contains (e ∷ days) m found) in
      last-latest (e ∷ days) ascending ∙ max-skip d (max_of (e ∷ days)) m found later
]

All-keep :
    (d : ℕ) (test : ℕ → Bool) (days : List ℕ)
    → All (λ e. d < e) days
    → All (λ e. d < e) (keep test days)
All-keep d test [] above = tt
All-keep d test (e ∷ days) (first, above) = elim (Bool-cases (test e)) [
  | inl kept ↦ rw kept (first, All-keep d test days above)
  | inr dropped ↦ rw dropped (All-keep d test days above)
]

keep-Ascending : (test : ℕ → Bool) (days : List ℕ) → Ascending days → Ascending (keep test days)
keep-Ascending test [] ascending = tt
keep-Ascending test (d ∷ days) (above, ascending) = elim (Bool-cases (test d)) [
  | inl kept ↦ rw kept (All-keep d test days above, keep-Ascending test days ascending)
  | inr dropped ↦ rw dropped (keep-Ascending test days ascending)
]

-- Without the day itself, the days up to it are the days before it.
keep_strict :
    (days : List ℕ) (d : ℕ)
    → contains days d ≡ false
    → keep (λ e. leb e d) days ≡ keep (λ e. ltb e d) days
keep_strict [] d absent = refl
keep_strict (x ∷ days) d absent = elim (Bool-cases (x == d)) [
  | inl here ↦ let absurd = rw here at absent in cc
  | inr other ↦
      let same : leb x d ≡ ltb x d = ground arith in
      rw (same, keep_strict days d (rw other at absent)) refl
]

-- The latest of the days up to one of them is that one.
latest_here :
    (days : List ℕ) (d : ℕ) → contains days d ≡ true → max_of (keep (λ e. leb e d) days) ≡ some d
latest_here days d inside =
    let up_to : ℕ → Bool = λ e. leb e d in
    let kept = keep-contains up_to days d (le→leb d d (omega arith)) inside in
    elim (Option-cases (max_of (keep up_to days))) [
      | inl empty ↦ let absurd = max_none (keep up_to days) d empty in cc
      | inr (m, found) ↦
          let below = contains-keep up_to days m (max-contains (keep up_to days) m found) in
          let above = max_bound (keep up_to days) m d found kept in
          let same : m ≡ d = let upper = leb→le m d below.0 in omega arith in found ∙ ap some same
    ]

-- The anchor of a month is its latest session on or before its third Friday, where the calendar lists
-- sessions in ascending order: the third Friday when it is a session, else the session before it, and
-- a `RuntimeError` when the month has none.
pub compute_monthly_options_expiry_anchor-IsLatest :
    (schedule : Schedule) (y m : ℕ)
    → 1 ≤ y
    → y ≤ 9_999
    → 1 ≤ m
    → m ≤ 12
    → Ascending (month_sessions schedule y m)
    → compute_monthly_options_expiry_anchor schedule y m
      ≡ latest (
          max_of (
            keep
              (λ d. leb d (to_ordinal (record { year = y; month = m; day = third_friday_day y m })))
              (month_sessions schedule y m)))
unfolding compute_monthly_options_expiry_anchor
compute_monthly_options_expiry_anchor-IsLatest schedule y m y1 y2 m1 m2 ascending =
    let target = to_ordinal (dated y m (third_friday_day y m)) in
    let sessions = month_sessions schedule y m in
    rw (third_friday-date y m y1 y2 m1 m2) (elim (Bool-cases (contains sessions target)) [
      | inl session ↦ rw (session, latest_here sessions target session) refl
      | inr holiday ↦
          rw (holiday, keep_strict sessions target holiday)
            (last-latest (keep (λ d. ltb d target) sessions)
              (keep-Ascending (λ d. ltb d target) sessions ascending))
    ])
