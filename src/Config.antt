-- ===== src/Config.antt =====
-- src/config/config.c.
pub mod Parse
pub mod Ranges
pub mod Tests
