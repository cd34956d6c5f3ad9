-- ===== src/Harness.antt =====
-- The agent harness (backend/harness), but for its streaming machine, which is Streaming.
pub mod Models
pub mod Context
pub mod Resume
pub mod ToolCalls
pub mod Compaction
pub mod Registry
pub mod Turn
