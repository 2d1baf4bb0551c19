-- ===== src/Tools.antt =====
-- Tools and their results: holmes/core/tools.py.
pub mod Json
pub mod Result
pub mod Invoke
pub mod Approval
mod Tests
