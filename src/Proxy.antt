-- ===== src/Proxy.antt =====
-- The proxy that runs a request on the local backend (provider/src/proxy.rs).
pub mod Lines
pub mod Stream
pub mod Request
mod Framing
mod Chunking
pub mod Relay
pub mod Messages
mod Streaming
pub mod Terminal
mod Once
mod Examples
