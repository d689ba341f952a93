-- ===== src/Level1.antt =====
-- src/uni20/level1: operations on every element of a tensor.
pub mod Assign
pub mod ApplyUnary
mod Tests
