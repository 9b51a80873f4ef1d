-- ===== src/Update.antt =====
-- The transactional update of the installed provider (provider/src/main.rs): the release is checked,
-- unpacked and verified, and the previous binaries are restored if it does not verify.
pub mod Disk
pub mod Release
pub mod Backup
pub mod Install
pub mod Auto
mod Versions
mod Effects
mod Saved
mod Restored
mod Verified
mod Rejected
mod Undone
mod Examples
mod Unhashed
