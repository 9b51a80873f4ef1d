-- ===== src/Models.antt =====
-- The models that are found on the disk (provider/src/models.rs), and the hash of their files
-- (provider/src/security.rs).
pub mod Sort
pub mod Names
pub mod Snapshots
pub mod Scan
mod Ordered
mod Resolved
mod Scanned
mod Hashed
mod Examples
