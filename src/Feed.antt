-- ===== src/Feed.antt =====
-- The feed of new papers of a project, of backend/feed/__init__.py.
pub mod Poll
pub mod Once
pub mod Histories
pub mod Events
