-- ===== src/Usage.antt =====
-- app/services/usage.py: from final measurements to daily and monthly usage.
pub mod Windows
pub mod Buckets
pub mod Calculate
pub mod Totals
pub mod Uniqueness
pub mod Accepted
pub mod Payloads
