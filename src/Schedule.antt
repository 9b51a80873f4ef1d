-- ===== src/Schedule.antt =====
-- Time-based availability windows (provider/src/scheduling.rs).
pub mod Week
pub mod Config
pub mod Active
pub mod Waits
mod Spec
mod Names
mod Parsing
mod Coverage
mod Closing
mod Opening
mod NextOpening
mod Examples
