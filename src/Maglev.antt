-- ===== src/Maglev.antt =====
-- The Maglev lookup table: src/maglev.
pub mod Prime
pub mod Cycle
pub mod Hash
pub mod Table
pub mod Populate
pub mod Shares
pub mod Fills
pub mod Sort
pub mod Start
pub mod Generate
pub mod Snapshot
pub mod Tests
