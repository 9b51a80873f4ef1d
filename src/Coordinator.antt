-- ===== src/Coordinator.antt =====
-- The connection to the coordinator (provider/src/coordinator.rs).
pub mod Reconnect
pub mod Decrypt
pub mod Session
pub mod StatusMap
pub mod Challenge
mod Status
mod Answers
mod Attempts
mod Sealed
mod Liveness
mod StatusExamples
mod Examples
