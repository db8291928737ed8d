-- ===== src/Transition.antt =====
-- The transition layer: the pressure score (src/regime_detection/transition_score.py) and the state
-- and drivers chosen from it (src/regime_detection/transition_risk.py).
pub mod Components
pub mod Score
pub mod Risk
pub mod Debounce
pub mod History
