-- ===== src/Protocol.antt =====
-- lib/inc/protocol/scrutiny_protocol_definitions.hpp and scrutiny_protocol_definitions.cpp, and the
-- limits of lib/inc/protocol/scrutiny_codec_v1_0.hpp: requests, responses, identifiers and magics.
pub mod CommandId
pub mod CommControl
pub mod ResponseCode
use scrutiny_embedded.Base.{ℕ, ◌-◌, List}

-- `data` points to the reception buffer, which the communication handler keeps.
pub record Request : Type 0 where
  pub command_id : ℕ
  pub subfunction_id : ℕ
  pub data_length : ℕ
  pub data_max_length : ℕ
  pub crc : ℕ

-- `payload` is what `data` points to: the transmission buffer.
pub record Response : Type 0 where
  pub command_id : ℕ
  pub subfunction_id : ℕ
  pub response_code : ℕ
  pub data_length : ℕ
  pub data_max_length : ℕ
  pub payload : List ℕ
  pub crc : ℕ

unfoldable pub reset_request : Request → Request
reset_request r = record r { command_id = 0; subfunction_id = 0; data_length = 0; crc = 0 }

unfoldable pub reset_response : Response → Response
reset_response r = record r {
  command_id = 0;
  subfunction_id = 0;
  response_code = 0;
  data_length = 0;
}

pub data RxError : Type 0 where
  none overflow disabled invalid_command : RxError

pub data TxError : Type 0 where
  none overflow busy disabled : TxError

abbrev pub minimum_rx_buffer_size : ℕ
minimum_rx_buffer_size = 32

abbrev pub minimum_tx_buffer_size : ℕ
minimum_tx_buffer_size = 32

abbrev pub buffer_overflow_margin : ℕ
buffer_overflow_margin = 16

abbrev pub maximum_rx_buffer_size : ℕ
maximum_rx_buffer_size = 0xFFFF - buffer_overflow_margin

abbrev pub maximum_tx_buffer_size : ℕ
maximum_tx_buffer_size = 0xFFFF - buffer_overflow_margin
