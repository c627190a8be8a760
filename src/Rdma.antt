-- ===== src/Rdma.antt =====
-- The RDMA transport: memory regions of a device, device choice, slicing and status.
pub mod Regions
pub mod Select
pub mod Slicing
pub mod Status
pub mod Registration
pub mod Gid
pub mod Tests
