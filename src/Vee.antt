-- ===== src/Vee.antt =====
-- app/services/vee.py: validation of initial measurements.
pub mod Rules
pub mod Evaluate
pub mod Baseline
pub mod Actions
pub mod Hits
pub mod Values
pub mod OneActive
pub mod Reach
pub mod Blocking
pub mod Reevaluation
pub mod Repeat
pub mod Resolution
