-- ===== src/Common.antt =====
-- src/uni20/common: containers, text and terminal helpers.
pub mod Text
pub mod Terminal
pub mod StaticVector
