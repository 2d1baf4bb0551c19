-- ===== src/Toolsets.antt =====
-- The toolsets of the agent: holmes/core/tools.py, holmes/core/toolset_manager.py and
-- holmes/core/tools_utils.
pub mod Logging
pub mod Prerequisites
pub mod Lazy
pub mod Executor
pub mod Owners
pub mod Ready
mod Tests
mod ExecutorTests
pub mod Manager
pub mod StatusCache
pub mod Listing
pub mod Distinct
pub mod Restored
pub mod Starts
mod ManagerTests
