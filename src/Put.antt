-- ===== src/Put.antt =====
-- The put pipeline of mooncake-store/src/client_service.cpp.
pub mod Types
pub mod Decision
pub mod Start
pub mod Transfers
pub mod Finalize
pub mod Pipeline
pub mod Upsert
pub mod Entry
pub mod Single
pub mod SameNode
pub mod Dispatch
pub mod Tests
