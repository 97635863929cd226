-- ===== src/Main/CommControl/Tests.antt =====
-- The communication control command on concrete requests.
use scrutiny_embedded.Base.{
  ℕ, true, false, ◌-◌, ◌^◌, List, [], ◌∷◌, ◌++◌, ◌≡◌, refl, arith, take, drop, replicate, none,
}
use scrutiny_embedded.Timebase.{get_timestamp}
use scrutiny_embedded.Protocol.{Request, Response}
use scrutiny_embedded.Protocol.ResponseCode.{ResponseCode}
use scrutiny_embedded.Protocol.CommControl.{connect_magic}
use scrutiny_embedded.Codecs.{
  encode_16_bits_big_endian_8bits, encode_32_bits_big_endian_8bits, decode_16_bits_big_endian_8bits,
  decode_32_bits_big_endian_8bits,
}
use scrutiny_embedded.Comm.State.{CommHandler}
use scrutiny_embedded.Comm.Receive.{same_bytes, write_at}
use scrutiny_embedded.Comm.Samples.{blank, noon, buffer}
use scrutiny_embedded.Main.Config.{Config}
use scrutiny_embedded.Main.CommControl.{process_comm_control}
use scrutiny_embedded.Main.CommControl.Sessions.{KeepsSession, process_comm_control-KeepsSession}
use scrutiny_embedded.Main.CommControl.Exchange.{given_id, connect-heartbeat}

abbrev config : Config
config = record {
  display_name = 65 ∷ 66 ∷ [];
  max_bitrate = 0;
  rx_buffer_size = 32;
  tx_buffer_size = 32;
  memory_write_enable = true;
  is_forbidden_address_range_set = false;
  forbidden_ranges = [];
  is_readonly_address_range_set = false;
  readonly_ranges = [];
  rpvs = [];
  rpv_read_callback = none;
  rpv_write_callback = none;
  user_command_callback = none;
  loop_count = 0;
}

abbrev id : List ℕ
id = replicate 16 7

abbrev request : ℕ → ℕ → Request
request subfunction n = record {
  command_id = 2;
  subfunction_id = subfunction;
  data_length = n;
  data_max_length = 32;
  crc = 0;
}

abbrev response : Response
response =
    let active = blank.active_response in record active { payload = buffer; data_max_length = 32 }

abbrev ready : CommHandler
ready = record blank { enabled = true; session_counter = 9; rx_buffer = connect_magic ++ buffer }

abbrev connected : CommHandler
connected = record ready { session_active = true; session_id = 5; rx_buffer = 0 ∷ 0 ∷ 0 ∷ 5 ∷ [] }

-- A Connect request while a session is active.
connect_busy :
    (process_comm_control noon config id connected false (request 4 4) response).code
    ≡ ResponseCode.busy
unfolding process_comm_control
connect_busy = refl

-- Only the session's own Disconnect request asks for its end.
disconnect_own :
    (process_comm_control noon config id connected false (request 5 4) response).disconnect_pending
    ≡ true
unfolding process_comm_control decode_32_bits_big_endian_8bits
disconnect_own = refl

abbrev found : Response
found =
    let asking = record ready { rx_buffer = 0x7E ∷ 0x18 ∷ 0xFC ∷ 0x68 ∷ [] } in
    (process_comm_control noon config id asking false (request 1 4) response).response

discover_name : take 21 found.payload ≡ 1 ∷ 0 ∷ id ++ (2 ∷ 65 ∷ 66 ∷ [])
unfolding process_comm_control same_bytes write_at
discover_name = refl

process_comm_control-KeepsSession_example :
    KeepsSession connected false
      (request 5 4)
      (process_comm_control noon config id connected false (request 5 4) response)
process_comm_control-KeepsSession_example =
    process_comm_control-KeepsSession noon config id connected false (request 5 4) response

connect-heartbeat_example :
    (let o = process_comm_control noon config id ready false (request 4 4) response in
      let n = given_id noon config id ready false (request 4 4) response in
      let connected' = o.comm_handler in
      let asked = record connected' {
        rx_buffer =
            encode_32_bits_big_endian_8bits n ++ (encode_16_bits_big_endian_8bits 0x1234 ++ []);
      } in
      let o' = process_comm_control noon config id asked false (request 2 6) response in
      (o.code ≡ ResponseCode.ok)
      × (take 4 (o.response).payload ≡ connect_magic)
      × (connected'.session_active ≡ true)
      × (connected'.session_id ≡ n)
      × (o'.code ≡ ResponseCode.ok)
      × (decode_32_bits_big_endian_8bits (o'.response).payload ≡ n)
      × (decode_16_bits_big_endian_8bits (drop 4 (o'.response).payload) ≡ 2 ^ 16 - 1 - 0x1234)
      × ((o'.comm_handler).heartbeat_timestamp ≡ get_timestamp noon))
connect-heartbeat_example =
    connect-heartbeat noon noon config id ready false (request 4 4) (request 2 6) response response
      0x1234 [] refl refl (omega arith) refl refl (omega arith) refl refl (omega arith)
      (omega arith)
