-- ===== src/Mdspan.antt =====
-- src/uni20/mdspan: iteration over tensors whose elements lie at strided offsets.
pub mod Vec
pub mod Sort
pub mod Strides
pub mod Memory
pub mod Visits
pub mod Indices
pub mod Plan
pub mod Single
mod Tests
