-- ===== src/Main/CommControl.antt =====
-- `MainHandler::process_comm_control` of lib/src/scrutiny_main_handler.cpp, one function for each of its cases, and
-- `process_user_command`.
pub mod Exchange
pub mod Sessions
mod Tests
use scrutiny_embedded.Base.{
  ℕ, Bool, true, not, ◌-◌, ◌^◌, List, [], ltb, ◌==◌, if◌then◌else◌, length, min, take, Option, none,
  some,
}
use scrutiny_embedded.Timebase.{Timebase}
use scrutiny_embedded.Protocol.{Request, Response}
use scrutiny_embedded.Protocol.ResponseCode.{ResponseCode, is_ok}
use scrutiny_embedded.Protocol.CommControl
use scrutiny_embedded.Protocol.CommControl.{connect_magic}
use scrutiny_embedded.CodecV1.{addr_size}
use scrutiny_embedded.CodecV1.CommControl.{
  DiscoverResponse, HeartbeatRequest, HeartbeatResponse, GetParamsResponse, ConnectResponse,
  max_display_name_length, encode_response_comm_discover, encode_response_comm_heartbeat,
  encode_response_comm_get_params, encode_response_comm_connect, decode_request_comm_discover,
  decode_request_comm_heartbeat, decode_request_comm_connect, decode_request_comm_disconnect,
}
use scrutiny_embedded.Comm.State.{CommHandler}
use scrutiny_embedded.Comm.Session.{heartbeat, connect}
use scrutiny_embedded.Main.Config.{Config}

-- The parts of the handler that a case changes, with its code.
pub record Outcome : Type 0 where
  pub comm_handler : CommHandler
  pub disconnect_pending : Bool
  pub response : Response
  pub code : ResponseCode

-- What `stack` holds before a decoder fills it.
abbrev pub no_heartbeat : HeartbeatRequest
no_heartbeat = record { session_id = 0; challenge = 0 }

module _ (timebase : Timebase) (config : Config) (software_id : List ℕ) (h : CommHandler)
    (disconnect_pending : Bool) (request : Request) (response : Response) where
  -- A case that stops here, and one that ends with an encoder.
  abbrev pub stop : ResponseCode → Outcome
  stop code = record {
    comm_handler = h;
    disconnect_pending = disconnect_pending;
    response = response;
    code = code;
  }

  abbrev pub encoded : CommHandler → Response × ResponseCode → Outcome
  encoded h' result = record {
    comm_handler = h';
    disconnect_pending = disconnect_pending;
    response = result.0;
    code = result.1;
  }

  unfoldable pub process_discover : Outcome
  unfolding encode_response_comm_discover decode_request_comm_discover
  process_discover =
      let decoded = decode_request_comm_discover request h.rx_buffer [] in
      let response_data : DiscoverResponse = record {
        display_name_length = min (length config.display_name) max_display_name_length;
        display_name = config.display_name;
      } in
      if not (is_ok decoded.1)
      then stop decoded.1
      else encoded h (encode_response_comm_discover software_id response_data response)

  unfoldable pub process_heartbeat : Outcome
  unfolding heartbeat encode_response_comm_heartbeat decode_request_comm_heartbeat
  process_heartbeat =
      let decoded = decode_request_comm_heartbeat request h.rx_buffer no_heartbeat in
      let beaten = heartbeat timebase h decoded.0.challenge in
      let response_data : HeartbeatResponse = record {
        session_id = (beaten.0).session_id;
        challenge_response = 2 ^ 16 - 1 - decoded.0.challenge;
      } in
      if not (is_ok decoded.1)
      then stop decoded.1
      else if not (decoded.0.session_id == h.session_id)
      then stop ResponseCode.invalid_request
      else if not beaten.1
      then stop ResponseCode.invalid_request
      else encoded beaten.0 (encode_response_comm_heartbeat response_data response)

  unfoldable pub process_get_params : Outcome
  unfolding encode_response_comm_get_params
  process_get_params =
      let response_data : GetParamsResponse = record {
        data_rx_buffer_size = config.rx_buffer_size;
        data_tx_buffer_size = config.tx_buffer_size;
        max_bitrate = config.max_bitrate;
        heartbeat_timeout = 5000000;
        comm_rx_timeout = 50000;
        address_size = addr_size;
        char_bit = 8;
      } in
      encoded h (encode_response_comm_get_params response_data response)

  unfoldable pub process_connect : Outcome
  unfolding connect encode_response_comm_connect decode_request_comm_connect
  process_connect =
      let decoded = decode_request_comm_connect request h.rx_buffer [] in
      let connected = connect timebase h in
      let response_data : ConnectResponse = record {
        magic = connect_magic;
        session_id = (connected.0).session_id;
      } in
      if not (is_ok decoded.1)
      then stop decoded.1
      else if h.session_active
      then stop ResponseCode.busy
      else if not connected.1
      then stop ResponseCode.failure_to_proceed
      else encoded connected.0 (encode_response_comm_connect response_data response)

  unfoldable pub process_disconnect : Outcome
  unfolding decode_request_comm_disconnect
  process_disconnect =
      let decoded = decode_request_comm_disconnect request h.rx_buffer 0 in
      let pending = record (stop ResponseCode.ok) { disconnect_pending = true } in
      if not (is_ok decoded.1)
      then stop decoded.1
      else if h.session_active
      then (if h.session_id == decoded.0 then pending else stop ResponseCode.invalid_request)
      else stop ResponseCode.ok

  unfoldable pub process_comm_control : Outcome
  unfolding process_discover process_heartbeat process_get_params process_connect process_disconnect
  process_comm_control =
      if request.subfunction_id == CommControl.discover
      then process_discover
      else if request.subfunction_id == CommControl.heartbeat
      then process_heartbeat
      else if request.subfunction_id == CommControl.get_params
      then process_get_params
      else if request.subfunction_id == CommControl.connect
      then process_connect
      else if request.subfunction_id == CommControl.disconnect
      then process_disconnect
      else stop ResponseCode.unsupported_feature

-- The callback gets the subfunction, the request's data and the size of the transmission buffer; it gives what it
-- leaves in the response's data, and the length that it tells.
unfoldable pub process_user_command :
    Config → CommHandler → Request → Response → Response × ResponseCode
process_user_command config h request response = elim config.user_command_callback [
  | none ↦ (response, ResponseCode.unsupported_feature)
  | some callback ↦
      let called =
        callback request.subfunction_id (take request.data_length h.rx_buffer) h.tx_buffer_size in
      let left = record response { payload = called.0 } in
      if ltb h.tx_buffer_size called.1
      then (left, ResponseCode.overflow)
      else (record left { data_length = called.1 }, ResponseCode.ok)
]
