-- ===== src/Launchd.antt =====
-- The migration of the launchd file that starts the provider (provider/src/main.rs): the arguments it
-- names are read, converted to those of the Swift command line, and written back into the file.
pub mod Cut
pub mod Args
pub mod Plist
mod Options
mod Rendered
mod RoundTrip
mod Examples
