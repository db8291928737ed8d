-- ===== src/EventWindows.antt =====
-- The dates of scheduled events: src/regime_data_fetch/expiry_calendar.py, earnings_season_calendar.py,
-- event_calendar_windows.py, and the label of a date in event_calendar.py.
pub mod Dates
pub mod Expand
pub mod Expiry
pub mod Earnings
pub mod Election
pub mod Labels
