-- ===== src/Papers.antt =====
-- The papers (backend/papers/__init__.py): their canonical ids and their stages.
pub mod CanonicalId
pub mod Pipeline
pub mod Jobs
pub mod Steps
pub mod Staged
pub mod Stuck
pub mod Recovers
pub mod Windows
