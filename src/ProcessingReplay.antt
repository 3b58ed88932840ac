-- ===== src/ProcessingReplay.antt =====
-- app/services/processing_replay.py: what follows a change of a final measurement.
pub mod Windows
pub mod Reevaluate
pub mod Keeps
