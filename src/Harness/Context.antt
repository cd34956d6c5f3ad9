-- ===== src/Harness/Context.antt =====
-- Context assembly (backend/harness/context.py).
pub mod Blocks
pub mod Assemble
pub mod Eviction
pub mod Bands
