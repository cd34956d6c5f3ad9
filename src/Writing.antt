-- ===== src/Writing.antt =====
-- Manuscripts: the references of a project and the check of a document's citations, of
-- backend/writing.
pub mod Models
pub mod References
pub mod Keys
pub mod Citations
pub mod Scans
pub mod Cited
pub mod Spans
