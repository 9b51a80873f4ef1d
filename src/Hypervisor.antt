-- ===== src/Hypervisor.antt =====
-- The virtual machine whose page tables isolate the memory of inference (provider/src/hypervisor.rs).
pub mod Pool
pub mod Chunks
pub mod Mapped
pub mod Allocations
pub mod Buffers
pub mod Runs
pub mod Capacity
pub mod Teardown
mod Examples
