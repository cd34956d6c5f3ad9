-- ===== src/Search.antt =====
-- The search federation (backend/search).
pub mod Models
pub mod Federation
pub mod Dedupe
pub mod Pages
