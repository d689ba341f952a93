-- ===== src/Common/Terminal.antt =====
-- src/uni20/common/terminal.cpp and terminal.hpp.
pub mod Split
pub mod TopLevel
pub mod Trim
pub mod Colors
pub mod Rgb
pub mod Style
pub mod Parse
pub mod Shell
pub mod Environment
mod Tests
