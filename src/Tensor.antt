-- ===== src/Tensor.antt =====
-- src/uni20/tensor: the layouts of tensors.
pub mod Layout
mod Tests
