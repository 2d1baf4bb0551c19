-- ===== src/Scheduled.antt =====
-- Scheduled prompts: holmes/core/scheduled_prompts.
pub mod Executor
pub mod Runs
mod Tests
