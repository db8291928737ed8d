-- ===== src/Rules/TrendDirection/Precedence.antt =====
-- The label of the trend direction axis is the first of the rules that fire.
use regime_detection.Prelude.Int.{int_eq}
use regime_detection.Prelude.{
  ℕ, String, ◌≡◌, refl, ◌∙◌, inl, inr, Bool, true, false, not, ◌&&◌, none, some, List, [], ◌∷◌,
  if◌then◌else◌, Bool-cases, ◌==◌, nat_eq, string_eq, bool_eq, ok, ap, sym, map, Option,
  Option-cases, ◌⊎◌, contains,
}
use mathlib.Core.Bool.{false≢true}
use regime_detection.Prelude.Dict.{get_from, keys, lookup, has_key}
use regime_detection.Float.{Float, lef, gtf}
use regime_detection.DataQuality.{Series}
use regime_detection.Rules.{any_nan, mark}
use regime_detection.Rules.TrendDirection.{
  TrendRow, TrendDirectionV2Features, TrendDirectionV2RulesConfig, closes, resolve_rows,
  build_trend_labels, bull_fires, bear_fires, sideways_fires, transition_fires, over_lower,
  trend_raw_label, evaluate_recovery, evaluate_euphoria, evaluate_v2_trend_label,
  resolve_trend_label,
}

-- The label that the tests of the rules give.
abbrev chosen : Bool → Bool → Bool → Bool → String
chosen bull bear sideways transition =
    mark bull "bull"
      (mark bear "bear" (mark sideways "sideways" (mark transition "transition" "unknown")))

-- The first label of the documented precedence whose rule fires.
abbrev pub first_label : Bool → Bool → Bool → Bool → Bool → Bool → String
first_label euphoria bull recovery bear sideways transition =
    if euphoria
    then "euphoria"
    else (if bull
        then "bull"
        else (if recovery
            then "recovery"
            else (if bear
                then "bear"
                else (if sideways
                    then "sideways"
                    else (if transition then "transition" else "unknown")))))

-- Recovery written over the labels that it outranks gives the first label.
override-first :
    (bull recovery bear sideways transition : Bool)
    → get_from
        (over_lower (chosen bull bear sideways transition) recovery)
        (chosen bull bear sideways transition)
      ≡ first_label false bull recovery bear sideways transition
override-first true true bear sideways transition = refl
override-first true false bear sideways transition = refl
override-first false true true sideways transition = refl
override-first false true false true transition = refl
override-first false true false false true = refl
override-first false true false false false = refl
override-first false false true sideways transition = refl
override-first false false false true transition = refl
override-first false false false false true = refl
override-first false false false false false = refl

module _ {F : Type 0} where
  has_key-lookup :
      (rows : Series F) (day : ℕ)
      → ((has_key rows day ≡ false) × (lookup rows day ≡ none))
        ⊎ ((has_key rows day ≡ true) × (value : F) × (lookup rows day ≡ some value))
  has_key-lookup [] day = inl (refl, refl)
  has_key-lookup ((d, value) ∷ rows) day = elim (Bool-cases (d == day)) [
    | inl here ↦ rw here (inr (refl, value, refl))
    | inr later ↦ rw later (has_key-lookup rows day)
  ]

  -- A series over the same days as another has a value where that one has.
  read_along :
      (rows others : Series F) (day : ℕ)
      → keys others ≡ keys rows
      → has_key rows day ≡ true
      → (value : F) × (lookup others day ≡ some value)
  read_along rows others day same present = elim (has_key-lookup others day) [
    | inl absent ↦
        absurd (false≢true (sym absent.0 ∙ ap (λ days. contains days day) same ∙ present))
    | inr (listed, value, found) ↦ (value, found)
  ]

module _ {F : Type 0} ⦃f : Float F⦄ where
  -- The recovery rule on the values that there are.
  abbrev recovery_given :
      TrendDirectionV2RulesConfig F → Option F → Option F → Option F → Option F → Bool
  recovery_given config (some drawdown) (some return_63d) (some sma_50) (some close_t) =
      not (any_nan (drawdown ∷ return_63d ∷ sma_50 ∷ close_t ∷ []))
      && (lef drawdown config.recovery_drawdown_threshold
          && gtf return_63d config.recovery_return_threshold
          && gtf close_t sma_50)
  recovery_given config _ _ _ _ = false

  abbrev pub recovers :
      TrendDirectionV2Features F → Series F → ℕ → TrendDirectionV2RulesConfig F → Bool
  recovers features close day config =
      recovery_given config (lookup features.drawdown_252d day) (lookup features.return_63d day)
        (lookup features.sma_50 day) (lookup close day)

  -- The three series that the recovery rule reads are over the same days.
  pub record Aligned (features : TrendDirectionV2Features F) : Type 0 where
    pub returns : keys features.return_63d ≡ keys features.drawdown_252d
    pub averages : keys features.sma_50 ≡ keys features.drawdown_252d

  recovery_read :
      (features : TrendDirectionV2Features F) (close : Series F) (day : ℕ)
      (config : TrendDirectionV2RulesConfig F)
      → Aligned features
      → evaluate_recovery features close day config ≡ ok (recovers features close day config)
  unfolding evaluate_recovery
  recovery_read features close day config aligned =
      elim (has_key-lookup features.drawdown_252d day) [
        | inl (absent, no_value) ↦ rw (absent, no_value) refl
        | inr (present, drawdown, value) ↦
            let (ret, is_ret) =
              read_along features.drawdown_252d features.return_63d day aligned.returns present in
            let (sma, is_sma) =
              read_along features.drawdown_252d features.sma_50 day aligned.averages present in
            rw (present, value, is_ret, is_sma)
              (elim (Option-cases (lookup close day)) [
                | inl no_close ↦ rw no_close refl
                | inr (close_t, is_close) ↦ rw is_close refl
              ])
      ]

  -- The first label whose rule fires at a session.
  abbrev pub label_of :
      TrendDirectionV2Features F → TrendDirectionV2RulesConfig F → Series F → TrendRow F → String
  label_of features config close r =
      first_label (evaluate_euphoria features close r.day config) (bull_fires r)
        (recovers features close r.day config) (bear_fires r) (sideways_fires r)
        (transition_fires r)

  resolve-label_of :
      (features : TrendDirectionV2Features F) (config : TrendDirectionV2RulesConfig F)
      (close : Series F) (r : TrendRow F)
      → Aligned features
      → resolve_trend_label (some (features, config)) close r
        ≡ ok (label_of features config close r)
  unfolding resolve_trend_label evaluate_v2_trend_label trend_raw_label
  resolve-label_of features config close r aligned =
      elim (Bool-cases (evaluate_euphoria features close r.day config)) [
        | inl euphoric ↦ rw euphoric refl
        | inr calm ↦
            rw (calm, recovery_read features close r.day config aligned)
              (ap ok (
                override-first (bull_fires r) (recovers features close r.day config) (bear_fires r)
                  (sideways_fires r) (transition_fires r)))
      ]

  resolve_rows-label_of :
      (features : TrendDirectionV2Features F) (config : TrendDirectionV2RulesConfig F)
      (close : Series F) (rows : List (TrendRow F))
      → Aligned features
      → resolve_rows (some (features, config)) close rows
        ≡ ok (map (label_of features config close) rows)
  unfolding resolve_rows
  resolve_rows-label_of features config close [] aligned = refl
  resolve_rows-label_of features config close (r ∷ rows) aligned =
      rw
        (
          resolve-label_of features config close r aligned,
          resolve_rows-label_of features config close rows aligned,
        )
        refl

  -- Where the series that the recovery rule reads are over the same days, the labels are built, and
  -- each session's is the first one of the documented precedence (euphoria, bull, recovery, bear,
  -- sideways, transition) whose rule fires, else unknown.
  pub build_trend_labels-eq-first :
      (features : TrendDirectionV2Features F) (config : TrendDirectionV2RulesConfig F)
      (rows : List (TrendRow F))
      → Aligned features
      → build_trend_labels (some (features, config)) rows
        ≡ ok (map (label_of features config (closes rows)) rows)
  unfolding build_trend_labels
  build_trend_labels-eq-first features config rows aligned =
      resolve_rows-label_of features config (closes rows) rows aligned
