-- ===== src/Matrix.antt =====
-- Literature matrices, of backend/matrix/__init__.py.
pub mod Cells
pub mod Overrides
pub mod Rows
pub mod Refines
