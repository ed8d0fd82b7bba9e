-- ===== src/Tools.antt =====
-- tools/maglev_remap_report.c: how many slots of the table change hands with the set of backends.
pub mod Remap
pub mod Slots
pub mod Rows
pub mod Tests
