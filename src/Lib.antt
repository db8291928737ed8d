-- ===== src/Lib.antt =====
-- Verification of the regime detection engine (src/regime_detection of the repository).
--
-- The engine labels each trading session on several axes, keeps the labels stable by hysteresis,
-- scores the pressure of a transition between regimes, debounces the state chosen from the score, and
-- turns labels and state into guidance for strategies. Each file models the code that its first
-- comment names; names are the source's.
--
-- - Prelude: lists and Boolean tests on native numbers, a lawful `==`, integers, dictionaries as
--   association lists in insertion order, and exceptions as values (`Result`).
-- - Float: Python floats are an interface of comparisons, literals and arithmetic, with the laws of
--   the comparisons (NaN included) as named hypotheses where a theorem needs them. Float/Meets shows
--   that fixed-point numbers have these laws; the examples run on them.
-- - Calendar (calendar.py): sessions between dates. The schedule of a year, which comes from
--   pandas_market_calendars, is a parameter; dates are day ordinals.
-- - DataQuality (data_quality.py): the status of the input series of an axis, over windows that end
--   at the assessed date. DataQuality/Paths has the window of an unsorted index, too; there the days
--   are distinct, since the sort of pandas need not keep the order of equal labels.
-- - Classification (classification_status.py): why a label was emitted, from the data quality, the
--   labels and the evidence.
-- - Hysteresis (hysteresis.py): the loop with per-label thresholds, and in Hysteresis/Gap the loop that
--   is aware of data quality.
-- - Rules (monetary_pressure_rules.py, volume_liquidity_rules.py, volatility_state_rules.py,
--   breadth_state_rules.py, trend_direction_rules.py, trend_character_rules.py, _rule_helpers.py): the
--   rule engines of six axes. The days of a series are taken to be distinct, which the engine requires
--   of its inputs; evidence dictionaries are left out except for volume.
-- - Transition (transition_score.py, transition_risk.py, transition_risk_history.py): components,
--   score, band, state, output and the debounce of the state.
-- - EventWindows (src/regime_data_fetch: expiry_calendar.py, earnings_season_calendar.py,
--   event_calendar_windows.py, event_calendar.py): the dates and windows of scheduled events, and the
--   label of a date. Civil dates and weekdays are modelled as far as these files use them.
-- - EventCalendar (event_calendar.py): the engine's labels of sessions, painted event by event, and
--   the sessions just after an event window. A bit mask is the list of the labels whose bit is set.
-- - Manifest (src/regime_data_fetch/artifact_manifest.py): the manifest of data artifacts as plain
--   mappings; `str` and `int` of unusual values are parameters.
-- - CohortRouting (cohort_routing.py) and Strategy (strategy_family_constraints.py,
--   strategy_constraints.py, strategy_response.py): routing to a cohort, constraints per family, the
--   most restrictive combination, and the response with its event rules.
--
-- Data flows from Rules through Hysteresis, with the quality of DataQuality, to Transition, and from
-- there with the active labels to CohortRouting and Strategy. The loops are structural recursion on
-- lists of sessions, rows or rules, but for the loop over months of EventWindows, whose fuel is one
-- turn more than the months of the range; that it is enough is a result below. Dictionaries that the
-- code builds have distinct keys, since the iterated keys are distinct.
--
-- Not modelled: the computation of features and of statistical models, which is pandas, numpy and
-- numerical libraries; fetchers, parsers and stores of src/regime_data_fetch, which are input and
-- output; the rule engines of credit, inflation and network fragility, the reader of the event
-- calendar, and the engine's orchestration. The roundings of hardware floats and CPython's
-- compensated `sum` are not described: nothing here depends on them.
pub mod Prelude
pub mod Float
pub mod Calendar
pub mod DataQuality
pub mod Classification
pub mod Hysteresis
pub mod CohortRouting
pub mod Strategy
pub mod EventWindows
pub mod EventCalendar
pub mod Manifest
pub mod Transition
pub mod Rules
