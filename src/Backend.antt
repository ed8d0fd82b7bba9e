-- ===== src/Backend.antt =====
-- Backends: their table, the health checker, and the table generator. src/backend.
pub mod State
pub mod Manager
pub mod View
pub mod Refines
pub mod Invariant
pub mod Add
pub mod Snapshots
pub mod Generator
pub mod Rebuild
pub mod Health
pub mod Admin
pub mod Lines
pub mod Tests
pub mod Probes
pub mod Round
pub mod Counted
pub mod Once
pub mod Reclaim
