-- ===== src/Comm.antt =====
-- `CommHandler` of lib/src/protocol/scrutiny_comm_handler.cpp: frames on a half duplex byte stream.
pub mod State
pub mod Receive
pub mod Valid
pub mod Run
pub mod Frame
pub mod Transmit
pub mod Session
pub mod Samples
mod Tests
