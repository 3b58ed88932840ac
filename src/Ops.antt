-- ===== src/Ops.antt =====
-- app/services/operational_events.py and app/services/pipeline.py.
pub mod Rows
pub mod Catalogue
pub mod Events
pub mod Alerts
pub mod Pipeline
pub mod Laws
pub mod Watermarks
pub mod Frame
pub mod Steps
