-- ===== src/Streaming.antt =====
-- The cite-aware streaming machine (backend/harness/streaming.py).
pub mod Markup
pub mod Machine
pub mod Splits
pub mod Progress
pub mod Runs
pub mod Marked
pub mod Pieces
pub mod Loop
pub mod Turn
