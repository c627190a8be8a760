-- ===== src/Dmabuf.antt =====
-- The GPU dma-buf memory domain of SPDK, spdk/lib/dma/gpu_dmabuf.c.
pub mod Types
pub mod Tree
pub mod Ranges
pub mod Contexts
pub mod Register
pub mod Lifecycle
pub mod Lookup
pub mod Invariant
pub mod Caching
pub mod Steps
pub mod Serving
pub mod RoundTrip
pub mod Accounts
pub mod Exports
pub mod Balance
pub mod Releases
pub mod Runs
pub mod Creation
pub mod Safety
pub mod Wraps
pub mod Runtime
mod Tests
