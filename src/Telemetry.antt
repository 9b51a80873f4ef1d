-- ===== src/Telemetry.antt =====
-- Telemetry: the client and its worker (provider/src/telemetry/client.rs), what waits on disk
-- (queue.rs), and what becomes telemetry of the lines that child processes write
-- (stderr_scraper.rs).
pub mod Queue
pub mod Scraper
pub mod Client
pub mod Contents
pub mod Fifo
mod Runs
mod Reports
mod Flags
mod Examples
