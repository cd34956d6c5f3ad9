-- ===== src/Memory.antt =====
-- The memory index (backend/memory).
pub mod Chunking
pub mod Cover
pub mod Selection
pub mod TopK
pub mod Index
pub mod Rechunk
