-- ===== src/Provenance.antt =====
-- Quotes and their anchors (backend/provenance).
pub mod Normalize
pub mod Locator
pub mod Positions
pub mod Spans
pub mod Anchors
