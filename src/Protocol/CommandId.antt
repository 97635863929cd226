-- ===== src/Protocol/CommandId.antt =====
-- The commands of lib/inc/protocol/scrutiny_protocol_definitions.hpp.
use scrutiny_embedded.Base.{ℕ}

abbrev pub get_info : ℕ
get_info = 0x01

abbrev pub comm_control : ℕ
comm_control = 0x02

abbrev pub memory_control : ℕ
memory_control = 0x03

abbrev pub user_command : ℕ
user_command = 0x04

abbrev pub data_log_control : ℕ
data_log_control = 0x05
