-- ===== src/Experiments.antt =====
-- The experiment record and its measured gate (backend/experiments).
pub mod Models
pub mod Record
pub mod Slugs
pub mod Gate
pub mod History
