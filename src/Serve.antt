-- ===== src/Serve.antt =====
-- `cmd_serve` (provider/src/main.rs): the requests that the coordinator's connection hands over, and
-- the engines and backends that answer them.
pub mod Inprocess
pub mod Slots
pub mod Engines
pub mod Reload
pub mod Tracker
pub mod Requests
pub mod Events
pub mod Loaded
pub mod Prepared
pub mod Replies
pub mod Tracked
mod Branches
mod Running
pub mod Spawned
pub mod Aborted
pub mod Reloading
pub mod Monitor
pub mod Paced
mod Examples
pub mod Sends
mod Sealing
mod Streamed
