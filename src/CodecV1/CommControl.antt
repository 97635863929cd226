-- ===== src/CodecV1/CommControl.antt =====
-- The communication control command in lib/src/protocol/scrutiny_codec_v1_0.cpp: its decoders get the bytes of
-- the request's data and its encoders write the response's. A decoder gives its code, and what it
-- leaves in the argument that it fills.
pub mod Written
use scrutiny_embedded.Base.{
  ℕ, Bool, false, not, ◌&&◌, ◌+◌, ◌%◌, ◌^◌, List, [], ◌∷◌, ◌++◌, ltb, ◌==◌, if◌then◌else◌, take,
  drop, low_bits,
}
use scrutiny_embedded.Protocol.{Request, Response, minimum_tx_buffer_size}
use scrutiny_embedded.Protocol.CommControl.{discover_magic}
use scrutiny_embedded.Protocol.ResponseCode.{ResponseCode}
use scrutiny_embedded.Codecs.{
  encode_8_bits_8bits, encode_16_bits_big_endian_8bits, encode_32_bits_big_endian_8bits,
  decode_16_bits_big_endian_8bits, decode_32_bits_big_endian_8bits,
}
use scrutiny_embedded.Comm.Receive.{write_at, same_bytes}

abbrev pub max_display_name_length : ℕ
max_display_name_length = 64

-- `RequestData::CommControl::Heartbeat`
pub record HeartbeatRequest : Type 0 where
  pub session_id : ℕ
  pub challenge : ℕ

-- `ResponseData::CommControl::Discover`: the name is the bytes from the pointer on.
pub record DiscoverResponse : Type 0 where
  pub display_name_length : ℕ
  pub display_name : List ℕ

pub record HeartbeatResponse : Type 0 where
  pub session_id : ℕ
  pub challenge_response : ℕ

pub record GetParamsResponse : Type 0 where
  pub data_rx_buffer_size : ℕ
  pub data_tx_buffer_size : ℕ
  pub max_bitrate : ℕ
  pub heartbeat_timeout : ℕ
  pub comm_rx_timeout : ℕ
  pub address_size : ℕ
  pub char_bit : ℕ

pub record ConnectResponse : Type 0 where
  pub magic : List ℕ
  pub session_id : ℕ

-- `datalen > MINIMUM_TX_BUFFER_SIZE && datalen > response->data_max_length`
abbrev pub too_long : ℕ → Response → Bool
too_long datalen response =
    ltb minimum_tx_buffer_size datalen && ltb response.data_max_length datalen

-- The version of the protocol is 1.0, and the software's identifier 16 bytes.
unfoldable pub encode_response_comm_discover :
    List ℕ → DiscoverResponse → Response → Response × ResponseCode
encode_response_comm_discover software_id response_data response =
    let given = response_data.display_name_length in
    let display_name_length =
      if ltb max_display_name_length given then max_display_name_length else given in
    let datalen = 1 + 1 + 16 + 1 + display_name_length in
    let name = take display_name_length response_data.display_name in
    if too_long datalen response then (response, ResponseCode.overflow) else (
      record response {
        data_length = datalen;
        payload =
            write_at response.payload 0
              (1 ∷ 0 ∷ take 16 software_id ++ low_bits display_name_length 8 ∷ name);
      },
      ResponseCode.ok,
    )

unfoldable pub encode_response_comm_heartbeat :
    HeartbeatResponse → Response → Response × ResponseCode
encode_response_comm_heartbeat response_data response =
    let id =
      write_at response.payload 0 (encode_32_bits_big_endian_8bits response_data.session_id) in
    if too_long (4 + 2) response then (response, ResponseCode.overflow) else (
      record response {
        data_length = 4 + 2;
        payload = write_at id 4 (encode_16_bits_big_endian_8bits response_data.challenge_response);
      },
      ResponseCode.ok,
    )

unfoldable pub encode_response_comm_get_params :
    GetParamsResponse → Response → Response × ResponseCode
encode_response_comm_get_params r response =
    let sizes =
      encode_16_bits_big_endian_8bits r.data_rx_buffer_size
      ++ encode_16_bits_big_endian_8bits r.data_tx_buffer_size in
    let times =
      encode_32_bits_big_endian_8bits r.max_bitrate
      ++ encode_32_bits_big_endian_8bits r.heartbeat_timeout
      ++ encode_32_bits_big_endian_8bits r.comm_rx_timeout in
    let widths = encode_8_bits_8bits r.address_size ++ encode_8_bits_8bits r.char_bit in
    if too_long (2 + 2 + 4 + 4 + 4 + 1 + 1) response then (response, ResponseCode.overflow) else (
      record response {
        data_length = 2 + 2 + 4 + 4 + 4 + 1 + 1;
        payload = write_at response.payload 0 (sizes ++ times ++ widths);
      },
      ResponseCode.ok,
    )

unfoldable pub encode_response_comm_connect : ConnectResponse → Response → Response × ResponseCode
encode_response_comm_connect response_data response =
    let magic = write_at response.payload 0 (take 4 response_data.magic) in
    if too_long (4 + 4) response then (response, ResponseCode.overflow) else (
      record response {
        data_length = 4 + 4;
        payload = write_at magic 4 (encode_32_bits_big_endian_8bits response_data.session_id);
      },
      ResponseCode.ok,
    )

module _ (request : Request) (data' : List ℕ) where
  unfoldable pub decode_request_comm_discover : List ℕ → List ℕ × ResponseCode
  decode_request_comm_discover magic =
      let magic' = take 4 data' in
      if not (request.data_length == 4)
      then (magic, ResponseCode.invalid_request)
      else if not (same_bytes discover_magic magic')
      then (magic', ResponseCode.invalid_request)
      else (magic', ResponseCode.ok)

  unfoldable pub decode_request_comm_heartbeat : HeartbeatRequest → HeartbeatRequest × ResponseCode
  decode_request_comm_heartbeat request_data =
      if not (request.data_length == 4 + 2) then (request_data, ResponseCode.invalid_request) else (
        record {
          session_id = decode_32_bits_big_endian_8bits data';
          challenge = decode_16_bits_big_endian_8bits (drop 4 data');
        },
        ResponseCode.ok,
      )

  unfoldable pub decode_request_comm_connect : List ℕ → List ℕ × ResponseCode
  decode_request_comm_connect magic =
      if not (request.data_length == 4)
      then (magic, ResponseCode.invalid_request)
      else (take 4 data', ResponseCode.ok)

  -- The request's data is the session's identifier.
  unfoldable pub decode_request_comm_disconnect : ℕ → ℕ × ResponseCode
  decode_request_comm_disconnect session_id =
      if not (request.data_length == 4)
      then (session_id, ResponseCode.invalid_request)
      else (decode_32_bits_big_endian_8bits data', ResponseCode.ok)
