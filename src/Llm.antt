-- ===== src/Llm.antt =====
-- The gateway to language models (backend/llm/__init__.py) and the settings that it reads
-- (backend/settings/__init__.py).
pub mod Models
pub mod Resolve
pub mod Saved
pub mod Budget
pub mod Fits
pub mod Calls
pub mod Bounded
