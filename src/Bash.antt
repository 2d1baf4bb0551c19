-- ===== src/Bash.antt =====
-- The bash toolset, holmes/plugins/toolsets/bash: which commands run, which are refused, and
-- which wait for the user.
pub mod Match
pub mod Lists
pub mod Segment
pub mod Command
pub mod Safety
pub mod Tool
pub mod Runs
pub mod OneTime
mod Tests
