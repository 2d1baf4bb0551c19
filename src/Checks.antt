-- ===== src/Checks.antt =====
-- Health checks: holmes/checks.
pub mod Run
pub mod Config
pub mod Alerts
mod Tests
