-- ===== src/Scenarios.antt =====
-- Runs of the services on a small store.
mod Data
mod Validation
mod Measurements
mod Operations
mod Tariffs
mod Replay
mod Billing
mod Usage
mod Worker
mod Downstream
