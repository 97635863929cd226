-- ===== src/Main/CommControl/Exchange.antt =====
-- A client that connects and then sends heartbeats with the identifier that it was given.
use scrutiny_embedded.Base.{
  ℕ, Bool, true, false, ◌-◌, ◌%◌, ◌^◌, ◌<◌, ◌≤◌, ◌≡◌, ◌∙◌, refl, sym, ap, arith, List, ◌++◌, length,
  take, drop,
}
use scrutiny_embedded.Timebase.{Timebase, get_timestamp}
use scrutiny_embedded.Protocol.{Request, Response}
use scrutiny_embedded.Protocol.ResponseCode.{ResponseCode}
use scrutiny_embedded.Protocol.CommControl
use scrutiny_embedded.Protocol.CommControl.{connect_magic}
use scrutiny_embedded.Codecs.{
  encode_16_bits_big_endian_8bits, encode_32_bits_big_endian_8bits, decode_16_bits_big_endian_8bits,
  decode_32_bits_big_endian_8bits,
}
use scrutiny_embedded.Codecs.Bytes.{decode-encode}
use scrutiny_embedded.CodecV1.CommControl.{
  encode_response_comm_connect, encode_response_comm_heartbeat, decode_request_comm_heartbeat,
  decode_request_comm_connect,
}
use scrutiny_embedded.CodecV1.CommControl.Written.{
  write_at-fits, take-write_at, decode-write_at_32, drop-encode_32, decode-pair,
}
use scrutiny_embedded.Comm.State.{CommHandler, reset_rx}
use scrutiny_embedded.Comm.Receive.{write_at}
use scrutiny_embedded.Comm.Valid.{length-write_at}
use scrutiny_embedded.Comm.Session.{heartbeat, connect}
use scrutiny_embedded.Main.Config.{Config}
use scrutiny_embedded.Main.CommControl.{process_comm_control, process_heartbeat, process_connect}

module _ (timebase : Timebase) (config : Config) (software_id : List ℕ) (h : CommHandler)
    (pending : Bool) (request : Request) (response : Response) where
  -- The identifier that a response to Connect bears.
  abbrev pub given_id : ℕ
  given_id =
      let o = process_comm_control timebase config software_id h pending request response in
      decode_32_bits_big_endian_8bits (drop 4 (o.response).payload)

  connects :
      h.enabled ≡ true
      → h.session_active ≡ false
      → request.subfunction_id ≡ CommControl.connect
      → request.data_length ≡ 4
      → (let o = process_comm_control timebase config software_id h pending request response in
          let magic = write_at response.payload 0 connect_magic in
          (o.code ≡ ResponseCode.ok)
          × (o.comm_handler ≡ (connect timebase h).0)
          × ((o.response).data_length ≡ 8)
          × ((o.response).payload
              ≡ write_at magic 4
                  (encode_32_bits_big_endian_8bits ((connect timebase h).0).session_id)))
  unfolding process_comm_control process_connect encode_response_comm_connect
      decode_request_comm_connect connect
  connects on free asked long = (
    ground (arith, on, free, asked, long),
    ground (arith, on, free, asked, long),
    ground (arith, on, free, asked, long),
    ground (arith, on, free, asked, long),
  )

  beats :
      (id challenge : ℕ) (rest : List ℕ)
      → h.enabled ≡ true
      → h.session_active ≡ true
      → h.session_id ≡ id
      → h.rx_buffer
        ≡ encode_32_bits_big_endian_8bits id ++ (encode_16_bits_big_endian_8bits challenge ++ rest)
      → id < 2 ^ 32
      → challenge < 2 ^ 16
      → h.first_heartbeat_received ≡ false
      → request.subfunction_id ≡ CommControl.heartbeat
      → request.data_length ≡ 6
      → (let o = process_comm_control timebase config software_id h pending request response in
          let left = write_at response.payload 0 (encode_32_bits_big_endian_8bits id) in
          (o.code ≡ ResponseCode.ok)
          × (o.comm_handler ≡ (heartbeat timebase h challenge).0)
          × ((o.response).payload
              ≡ write_at left 4 (encode_16_bits_big_endian_8bits (2 ^ 16 - 1 - challenge))))
  unfolding process_comm_control process_heartbeat encode_response_comm_heartbeat
      decode_request_comm_heartbeat heartbeat
  beats id challenge rest on active own buffer small short first asked long =
      let bytes = encode_16_bits_big_endian_8bits challenge ++ rest in
      let id_read : decode_32_bits_big_endian_8bits h.rx_buffer ≡ id =
        ap decode_32_bits_big_endian_8bits buffer
        ∙ (decode-encode id bytes).2
        ∙ omega (arith, small) in
      let challenge_read : decode_16_bits_big_endian_8bits (drop 4 h.rx_buffer) ≡ challenge =
        ap (λ t. decode_16_bits_big_endian_8bits (drop 4 t)) buffer
        ∙ ap decode_16_bits_big_endian_8bits (drop-encode_32 id bytes)
        ∙ (decode-encode challenge rest).0
        ∙ omega (arith, short) in
      (
        ground (arith, on, active, own, id_read, challenge_read, first, asked, long),
        ground (arith, on, active, own, id_read, challenge_read, first, asked, long),
        ground (arith, on, active, own, id_read, challenge_read, first, asked, long),
      )

connect-starts :
    (timebase : Timebase) (h : CommHandler)
    → h.enabled ≡ true
    → h.session_active ≡ false
    → (let h' = (connect timebase h).0 in
        (h'.session_id ≡ h.session_counter)
        × (h'.session_active ≡ true)
        × (h'.enabled ≡ true)
        × (h'.first_heartbeat_received ≡ false))
unfolding connect reset_rx
connect-starts timebase h on free = (
  ground (arith, on, free),
  ground (arith, on, free),
  ground (arith, on, free),
  ground (arith, on, free),
)

heartbeat-stamps :
    (timebase : Timebase) (h : CommHandler) (challenge : ℕ)
    → h.enabled ≡ true
    → h.session_active ≡ true
    → h.first_heartbeat_received ≡ false
    → ((heartbeat timebase h challenge).0).heartbeat_timestamp ≡ get_timestamp timebase
unfolding heartbeat
heartbeat-stamps timebase h challenge on active first = ground (arith, on, active, first)

-- Where no session is active, a Connect request is answered with the magic and the identifier of the new session. A
-- Heartbeat request that comes then, at any time, with this identifier and any challenge is answered
-- with the same identifier and the challenge's complement, and its time is the session's last
-- heartbeat.
pub connect-heartbeat :
    (timebase timebase' : Timebase) (config : Config) (software_id : List ℕ) (h : CommHandler)
    (pending : Bool) (request request' : Request) (response response' : Response) (challenge : ℕ)
    (rest : List ℕ)
    → h.enabled ≡ true
    → h.session_active ≡ false
    → h.session_counter < 2 ^ 32
    → request.subfunction_id ≡ CommControl.connect
    → request.data_length ≡ 4
    → 8 ≤ length response.payload
    → request'.subfunction_id ≡ CommControl.heartbeat
    → request'.data_length ≡ 6
    → 6 ≤ length response'.payload
    → challenge < 2 ^ 16
    → (let o = process_comm_control timebase config software_id h pending request response in
        let id = given_id timebase config software_id h pending request response in
        let connected = o.comm_handler in
        let asked = record connected {
          rx_buffer =
              encode_32_bits_big_endian_8bits id
              ++ (encode_16_bits_big_endian_8bits challenge ++ rest);
        } in
        let o' =
          process_comm_control timebase' config software_id asked pending request' response' in
        (o.code ≡ ResponseCode.ok)
        × (take 4 (o.response).payload ≡ connect_magic)
        × (connected.session_active ≡ true)
        × (connected.session_id ≡ id)
        × (o'.code ≡ ResponseCode.ok)
        × (decode_32_bits_big_endian_8bits (o'.response).payload ≡ id)
        × (decode_16_bits_big_endian_8bits (drop 4 (o'.response).payload) ≡ 2 ^ 16 - 1 - challenge)
        × ((o'.comm_handler).heartbeat_timestamp ≡ get_timestamp timebase'))
connect-heartbeat timebase timebase' config software_id h pending request request' response
      response' challenge rest on free counter asks long room asks' long' room' short =
    let o = process_comm_control timebase config software_id h pending request response in
    let id = given_id timebase config software_id h pending request response in
    let connected = o.comm_handler in
    let magic = write_at response.payload 0 connect_magic in
    let (ok, handler, size, payload) =
      connects timebase config software_id h pending request response on free asks long in
    let (own, active, still, first) = connect-starts timebase h on free in
    let id_lem : id ≡ h.session_counter =
      ap (λ t. decode_32_bits_big_endian_8bits (drop 4 t)) payload
      ∙ decode-write_at_32 magic 4 ((connect timebase h).0).session_id
          (omega (arith, length-write_at response.payload 0 connect_magic, room))
      ∙ ap (λ n. n % 2 ^ 32) own
      ∙ omega (arith, counter) in
    let own' = ap (λ c. c.session_id) handler ∙ own ∙ sym id_lem in
    let active' = ap (λ c. c.session_active) handler ∙ active in
    let on' = ap (λ c. c.enabled) handler ∙ still in
    let first' = ap (λ c. c.first_heartbeat_received) handler ∙ first in
    let asked = record connected {
      rx_buffer =
          encode_32_bits_big_endian_8bits id ++ (encode_16_bits_big_endian_8bits challenge ++ rest);
    } in
    let (ok', beaten, payload') =
      beats timebase' config software_id asked pending request' response' id challenge rest on'
        active' own' refl (omega (arith, id_lem, counter)) short first' asks' long' in
    let (id_read, complement) = decode-pair response'.payload id (2 ^ 16 - 1 - challenge) room' in
    (
      ok,
      ap (take 4) payload
          ∙ take-write_at 4 magic 4
              (encode_32_bits_big_endian_8bits ((connect timebase h).0).session_id) (omega arith)
          ∙ ap (take 4) (write_at-fits response.payload connect_magic (omega (arith, room))),
      active',
      own',
      ok',
      ap decode_32_bits_big_endian_8bits payload' ∙ id_read ∙ omega (arith, id_lem, counter),
      ap (λ t. decode_16_bits_big_endian_8bits (drop 4 t)) payload' ∙ complement ∙ omega arith,
      ap (λ c. c.heartbeat_timestamp) beaten
          ∙ heartbeat-stamps timebase' asked challenge on' active' first',
    )
