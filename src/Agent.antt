-- ===== src/Agent.antt =====
-- The agent: the checks on a tool call (holmes/core/safeguards.py and
-- holmes/core/tools_utils/tool_context_window_limiter.py) and the loop of
-- holmes/core/tool_calling_llm.py.
pub mod Safeguards
pub mod Size
pub mod Invoke
pub mod Approval
pub mod Answers
pub mod Loop
pub mod Steps
pub mod Asked
pub mod Denied
pub mod Decisions
pub mod Decided
pub mod Undecided
pub mod Stream
pub mod StreamLoop
pub mod StreamDenied
pub mod Protocol
pub mod Conforms
pub mod Marks
pub mod Resume
pub mod Tests
pub mod LoopTests
pub mod DecisionTests
mod StreamTests
