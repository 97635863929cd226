-- ===== src/Lib.antt =====
-- The embedded library of the Scrutiny debugger (lib/): a server connects to a device over a byte
-- stream, and reads, writes and logs its variables. The device's program gives the library the bytes
-- that it receives, takes those that are to be sent, and calls it from its loops.
--
-- Comm models lib/src/protocol/scrutiny_comm_handler.cpp and its header. `Comm.State.CommHandler` has
-- the fields of the class `CommHandler`; the union of counters is one field, the request's data is the
-- reception buffer, the response's data its payload. Comm/State has `init` and the resets, Comm/Receive
-- `receive_data` as one function for each case of its switch (`on_command`, `on_length`, `on_data`,
-- `on_crc`), `dispatch` for the switch and `receive_loop` for the loop; Comm/Transmit has
-- `send_response`, `add_crc` and `pop_data` with its three copies; Comm/Session has `connect`,
-- `disconnect`, `heartbeat`, `process`, `enable` and `disable`. Comm/Frame and Comm/Transmit/Wire
-- describe the requests and the answers on the wire apart from the code, and Comm/Session/Steps the
-- handler with its clock as a step relation.
-- Protocol has the requests, responses and identifiers of
-- lib/inc/protocol/scrutiny_protocol_definitions.hpp and the limits of the buffers.
-- Tools models `crc32` (Tools/Crc) and the variable types (Tools/Types) of lib/src/scrutiny_tools.cpp
-- and lib/inc/scrutiny_tools.hpp; Timebase the clock of lib/inc/scrutiny_timebase.hpp; Codecs the words,
-- addresses and values of lib/inc/scrutiny_common_codecs.hpp and lib/src/scrutiny_common_codecs.cpp.
-- Datalogging models lib/src/datalogging: Datalogging/RawEncoder the circular buffer of entries,
-- Datalogging/DataLogger the state machine from a configuration to an acquisition, Datalogging/Trigger the
-- conditions that fire it. What they ask of the main handler is the record `MainHandler` of
-- Datalogging/Configuration; what the active condition gives on the operands that are fetched is a
-- function that `process` is given; the arithmetic of floats is the record `FloatOps` of
-- Datalogging/Trigger, of which nothing is assumed but what a theorem says.
-- CodecV1 models of lib/src/protocol/scrutiny_codec_v1_0.cpp the parsers of the requests that read and write
-- memory and the encoders of their responses, and CodecV1/CommControl both directions of the communication
-- control command, and CodecV1/Configure the decoding of a configuration of the datalogger. LoopHandler models lib/src/scrutiny_loop_handler.cpp and the
-- mailboxes of lib/inc/ipc. Main models of lib/src/scrutiny_main_handler.cpp the guards of the protected memory
-- regions and the lookup of published values; Main/Memory the cases of `process_memory_control` that read and
-- write memory; Main/Ownership what the main handler and the loops tell one another of the datalogger
-- (`process_datalogging_loop_msg`, `process_datalogging_logic`, `process_loops`) and the requests of
-- `process_datalog_control` that it depends on; Main/CommControl `process_comm_control` and
-- `process_user_command`; Main/Init `init` and `check_config`; Main/Process `process`, whose
-- `process_request` is an argument. Main/Ownership/Steps has both sides as a step relation whose
-- steps are calls: of a loop's `process_common`, of one round of `process_loops`, of the logic, of a request.
-- Base has what the others share: lists over native numbers, words of 8 to 64 bits, bitwise operations.
--
-- The bytes that arrive go to `receive_data`, which makes a request of them; the answer is given to
-- `send_response` and taken by `pop_data`, after which the next request is awaited. All read one clock.
--
-- Numbers are natural numbers; an operation on w bits that can wrap is a remainder by 2 ^ w. The build is
-- the default one of lib/inc/scrutiny_build_config.hpp.default: 8 bits to a char, 64 bit types, buffers
-- of the datalogger counted in 32 bits. The fuel of `receive_loop` is the number of bytes: each round
-- reads one or is the last. The loops over the
-- blocks of a request have more fuel than the request has bytes, of which each round but the last reads one.
-- Memory that a request names is a function from addresses to bytes, apart from the buffers of the library.
-- Copies to and from buffers are lists; a copy that would leave its buffer
-- writes no byte there.
--
-- Not modelled: the rest of the main handler and of the codec; what the decoding of a configuration leaves in the
-- datalogger where it fails, whose result is an argument of the request that depends on it; the fetch of a condition's operands, the reader of the datalogger's
-- buffer; the C wrapper, which only forwards calls; builds with chars of more than 8 bits. The float of a value
-- is its pattern of bits. A call of one of the handlers is one step, whatever happens inside it.
pub mod Base
pub mod Tools
pub mod Timebase
pub mod Protocol
pub mod Codecs
pub mod Datalogging
pub mod Comm
pub mod CodecV1
pub mod LoopHandler
pub mod Main
