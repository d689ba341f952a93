-- ===== src/Common/Terminal/Tests.antt =====
-- Runs of the text functions of terminal.cpp and terminal.hpp.
mod Styles
mod Lines
mod Decimal
