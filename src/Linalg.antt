-- ===== src/Linalg.antt =====
-- src/uni20/linalg: dense matrices.
pub mod Matrix
