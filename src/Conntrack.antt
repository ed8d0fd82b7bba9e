-- ===== src/Conntrack.antt =====
-- src/conntrack/: the flow table and its reaper.
pub mod Table
pub mod Tally
pub mod Stock
pub mod Invariant
pub mod Life
pub mod Lookup
pub mod Tests
pub mod Sweep
pub mod Touch
