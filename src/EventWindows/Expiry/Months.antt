-- ===== src/EventWindows/Expiry/Months.antt =====
-- The loop over months: it ends, and it visits the months of the range in order.
use regime_detection.Prelude.Int.{int_eq}
use regime_detection.Prelude.{
  ℕ, zero, suc, ◌+◌, ◌-◌, ◌*◌, ◌/◌, ◌%◌, ◌≤◌, ◌≡◌, refl, ◌∙◌, inl, inr, some, List, [], ◌++◌, arith,
  ltb, if◌then◌else◌, lt→ltb, Bool-cases, ◌==◌, nat_eq, string_eq, bool_eq, value_error, Result, ok,
  err, ◌>>=◌,
}
use regime_detection.EventWindows.Dates.{Date, to_ordinal}
use regime_detection.EventWindows.Expand.{Schedule}
use regime_detection.EventWindows.Expiry.{
  month_leb, after_turn, month_loop, expiry_turn, build_monthly_options_expiry_anchors,
}

-- The turns of `count` months from one on, a month being counted from the year 0: the first
-- exception, or what the turns append.
unfoldable pub visit_months {ℓ} : {A : Type ℓ} → (ℕ → ℕ → Result (List A)) → ℕ → ℕ → Result (List A)
visit_months visit number zero = ok []
visit_months visit number (suc count) = do
  here ← visit (number / 12) (number % 12 + 1)
  later ← visit_months visit (number + 1) count
  ok (here ++ later)

abbrev pub month_number : ℕ → ℕ → ℕ
month_number year month = 12 * year + (month - 1)

after_turn-bind {ℓ} :
    {A : Type ℓ} (here later : Result (List A))
    → after_turn here (some later) ≡ some (here >>= λ h. later >>= λ l. ok (h ++ l))
after_turn-bind (err raised) later = refl
after_turn-bind (ok here) (err raised) = refl
after_turn-bind (ok here) (ok later) = refl

abbrev next_year : ℕ → ℕ → ℕ
next_year year month = if month == 12 then year + 1 else year

abbrev next_month : ℕ → ℕ
next_month month = if month == 12 then 1 else month + 1

next_number :
    (year month : ℕ)
    → 1 ≤ month
    → month ≤ 12
    → (1 ≤ next_month month)
      × (next_month month ≤ 12)
      × (month_number (next_year year month) (next_month month) ≡ month_number year month + 1)
next_number year month low high = ground arith

month-number :
    (year month : ℕ)
    → 1 ≤ month
    → month ≤ 12
    → (month_number year month / 12 ≡ year) × (month_number year month % 12 + 1 ≡ month)
month-number year month low high = (omega arith, omega arith)

month_leb_turns :
    (year month end_year end_month : ℕ)
    → 1 ≤ month
    → month ≤ 12
    → 1 ≤ end_month
    → end_month ≤ 12
    → month_leb year month end_year end_month
      ≡ ltb 0 (month_number end_year end_month + 1 - month_number year month)
month_leb_turns year month end_year end_month l h l' h' = ground arith

-- With one turn more than the months of the range the loop is done, and what it gives is the visits
-- of the months in order, or the first exception of one.
pub month_loop_visits {ℓ} :
    {A : Type ℓ} (visit : ℕ → ℕ → Result (List A)) (end_year end_month turns year month : ℕ)
    → 1 ≤ month
    → month ≤ 12
    → 1 ≤ end_month
    → end_month ≤ 12
    → turns ≡ month_number end_year end_month + 1 - month_number year month
    → month_loop visit end_year end_month (suc turns) year month
      ≡ some (visit_months visit (month_number year month) turns)
unfolding month_loop visit_months
month_loop_visits visit end_year end_month zero year month l h l' h' is_turns =
    rw (month_leb_turns year month end_year end_month l h l' h', ← is_turns) refl
month_loop_visits visit end_year end_month (suc turns) year month l h l' h' is_turns =
    let (next_low, next_high, number) = next_number year month l h in
    let left : turns
        ≡ month_number end_year end_month
          + 1
          - month_number (next_year year month) (next_month month) =
      rw number (omega (arith, is_turns)) in
    let (is_year, is_month) = month-number year month l h in
    let inside =
      month_leb_turns year month end_year end_month l h l' h'
      ∙ lt→ltb 0 (month_number end_year end_month + 1 - month_number year month)
          (omega (arith, is_turns)) in
    rw
      (
        inside,
        month_loop_visits visit end_year end_month turns (next_year year month) (next_month month)
            next_low next_high l' h' left,
        number,
        is_year,
        is_month,
      )
      (after_turn-bind (visit year month) (visit_months visit (month_number year month + 1) turns))

-- The list of the anchors of some months.
abbrev pub anchors_of : Schedule → Date → Date → Result (List ℕ)
anchors_of schedule start end =
    visit_months (expiry_turn schedule) (month_number start.year start.month)
      (month_number end.year end.month + 1 - month_number start.year start.month)

-- The loop of the expiry anchors is done for every calendar and range of dates: it refuses a range that
-- ends before it starts, and otherwise gives the anchors of the months from the start's to the end's,
-- one per month and in order, or the first exception of one.
pub build_monthly_options_expiry_anchors_ends :
    (schedule : Schedule) (start end : Date)
    → 1 ≤ start.month
    → start.month ≤ 12
    → 1 ≤ end.month
    → end.month ≤ 12
    → build_monthly_options_expiry_anchors schedule start end
      ≡ some (
          if ltb (to_ordinal end) (to_ordinal start)
          then err value_error
          else anchors_of schedule start end)
unfolding build_monthly_options_expiry_anchors
build_monthly_options_expiry_anchors_ends schedule start end l h l' h' =
    elim (Bool-cases (ltb (to_ordinal end) (to_ordinal start))) [
      | inl refused ↦ rw refused refl
      | inr accepted ↦
          let turns : 12 * end.year + end.month + 1 - (12 * start.year + start.month)
              ≡ month_number end.year end.month + 1 - month_number start.year start.month =
            omega (arith, l, l') in
          rw (accepted, turns)
            (month_loop_visits (expiry_turn schedule) end.year end.month
              (month_number end.year end.month + 1 - month_number start.year start.month) start.year
              start.month l h l' h' refl)
    ]
