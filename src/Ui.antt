-- ===== src/Ui.antt =====
-- src/ui: the metrics endpoint and the dashboard's loop.
pub mod Metrics
pub mod Fits
pub mod Eligible
pub mod Http
pub mod Dashboard
pub mod Tests
