-- ===== src/Kernel.antt =====
-- src/uni20/kernel: tensor contractions.
pub mod Contract
pub mod Extract
mod Tests
