-- ===== src/EventWindows/Expiry/Tests.antt =====
-- Anchors of the first months of 2024, on two calendars.
use regime_detection.Prelude.Int.{int_eq}
use regime_detection.Prelude.{
  ℕ, zero, suc, ◌+◌, ◌-◌, ◌≡◌, refl, some, List, [], ◌∷◌, arith, ltb, leb, if◌then◌else◌, nat_eq,
  string_eq, bool_eq, value_error, runtime_error, ok, err,
}
use regime_detection.Calendar.{keep, max_of}
use regime_detection.EventWindows.Dates.{Date, to_ordinal}
use regime_detection.EventWindows.Expand.{Schedule}
use regime_detection.EventWindows.Expiry.{
  month_sessions, compute_monthly_options_expiry_anchor, build_monthly_options_expiry_anchors,
}
use regime_detection.EventWindows.Expiry.Anchor.{
  third_friday_day, latest, compute_monthly_options_expiry_anchor-IsLatest,
}
use regime_detection.EventWindows.Expiry.Months.{
  anchors_of, build_monthly_options_expiry_anchors_ends,
}

-- The 17th and 18th of January 2024 are sessions, the third Friday is not.
abbrev holiday : Schedule
holiday start end = 738_902 ∷ 738_903 ∷ 738_910 ∷ []

before_holiday : compute_monthly_options_expiry_anchor holiday 2_024 1 ≡ ok 738_903
unfolding compute_monthly_options_expiry_anchor
before_holiday = refl

no_session :
    compute_monthly_options_expiry_anchor (λ start end. 738_910 ∷ []) 2_024 1 ≡ err runtime_error
unfolding compute_monthly_options_expiry_anchor
no_session = refl

compute_monthly_options_expiry_anchor-IsLatest_example :
    compute_monthly_options_expiry_anchor holiday 2_024 1
    ≡ latest (
        max_of (
          keep
            (λ d.
              leb d
                (to_ordinal (record { year = 2_024; month = 1; day = third_friday_day 2_024 1 })))
            (month_sessions holiday 2_024 1)))
unfolding month_sessions
compute_monthly_options_expiry_anchor-IsLatest_example =
    compute_monthly_options_expiry_anchor-IsLatest holiday 2_024 1 (omega arith) (omega arith)
      (omega arith) (omega arith) ((omega arith, (omega arith, tt)), ((omega arith, tt), (tt, tt)))

abbrev december : Date
december = record { year = 2_023; month = 12; day = 30 }

abbrev february : Date
february = record { year = 2_024; month = 2; day = 1 }

-- Every day of a month is a session.
abbrev days_from : ℕ → ℕ → List ℕ
days_from first zero = []
days_from first (suc n) = first ∷ days_from (suc first) n

abbrev open_daily : Schedule
open_daily start end = days_from start (end - start + 1)

three_months :
    build_monthly_options_expiry_anchors open_daily december february
    ≡ some (ok (738_869 ∷ 738_904 ∷ 738_932 ∷ []))
unfolding build_monthly_options_expiry_anchors
three_months = refl

build_monthly_options_expiry_anchors_ends_example :
    build_monthly_options_expiry_anchors open_daily december february
    ≡ some (
        if ltb (to_ordinal february) (to_ordinal december)
        then err value_error
        else anchors_of open_daily december february)
build_monthly_options_expiry_anchors_ends_example =
    build_monthly_options_expiry_anchors_ends open_daily december february (omega arith)
      (omega arith) (omega arith) (omega arith)
