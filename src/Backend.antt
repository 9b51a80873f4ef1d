-- ===== src/Backend.antt =====
-- The local backend's supervision (provider/src/backend/mod.rs).
pub mod Backoff
pub mod Monitor
pub mod Probe
mod Restarts
mod Examples
