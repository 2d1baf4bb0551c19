-- ===== src/Context.antt =====
-- The context window, holmes/core/truncation and holmes/core/tools_utils.
pub mod Shares
pub mod Message
pub mod Truncate
pub mod Fits
pub mod Refs
pub mod Budget
pub mod Fair
pub mod Llm
pub mod Compaction
pub mod Limit
mod Tests
mod WindowTests
