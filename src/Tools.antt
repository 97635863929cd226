-- ===== src/Tools.antt =====
-- lib/src/scrutiny_tools.cpp and lib/inc/scrutiny_tools.hpp.
pub mod Crc
pub mod Types
mod Tests
