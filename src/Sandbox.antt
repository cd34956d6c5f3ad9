-- ===== src/Sandbox.antt =====
-- The consent tokens, runs and live notebook servers of the execution sandbox
-- (backend/sandbox/__init__.py).
pub mod Confirmation
pub mod Consent
pub mod Servers
pub mod Stopping
pub mod Guarded
pub mod Counts
pub mod Accounts
pub mod Launch
pub mod Recorded
pub mod Asked
