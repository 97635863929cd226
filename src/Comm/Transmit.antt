-- ===== src/Comm/Transmit.antt =====
-- `send_response`, `add_crc`, `pop_data` and `data_to_send`: the transmission of a response.
pub mod Wire
pub mod Loops
pub mod Popping
pub mod Sending
pub mod Busy
use scrutiny_embedded.Base.{
  ℕ, zero, suc, Bool, true, false, not, List, [], ◌∷◌, ◌++◌, ◌+◌, ◌-◌, ◌*◌, ◌/◌, ◌%◌, ◌^◌, ltb, leb,
  ◌==◌, ◌&&◌, if◌then◌else◌, length, take, drop, bit_or, u8, u16, u32, sub16, ◌<<<◌, ◌>>>◌,
  low_bits,
}
use scrutiny_embedded.Timebase.{Timebase}
use scrutiny_embedded.Tools.Crc.{crc32}
use scrutiny_embedded.Protocol.{Response, TxError, reset_response}
use scrutiny_embedded.Comm.State.{
  CommHandler, State, reset_tx, wait_next_request, is_transmitting, is_idle,
}

unfoldable pub response_header : Response → List ℕ
response_header r =
    u8 r.command_id
    ∷ u8 r.subfunction_id
    ∷ u8 r.response_code
    ∷ low_bits (r.data_length >>> 8) 8
    ∷ low_bits r.data_length 8
    ∷ []

-- `tx_buffer_size` is the handler's.
unfoldable pub add_crc : ℕ → Response → Response
unfolding response_header
add_crc tx_buffer_size r =
    let crc = crc32 (response_header r) 0 in
    if ltb tx_buffer_size r.data_length
    then r
    else record r { crc = crc32 (take r.data_length r.payload) crc }

unfoldable pub prepare_response : CommHandler → CommHandler
unfolding reset_response
prepare_response h = record h { active_response = reset_response h.active_response }

-- The response is `active_response` itself, filled by the handler of the request, or a copy.
unfoldable pub send_response : CommHandler → Response → CommHandler × Bool
unfolding add_crc reset_tx
send_response h response =
    let active = h.active_response in
    let sent = record active {
      command_id = bit_or response.command_id 0x80;
      subfunction_id = response.subfunction_id;
      response_code = response.response_code;
      data_length = response.data_length;
      payload = response.payload;
    } in
    let ready = add_crc h.tx_buffer_size sent in
    if not h.enabled
    then (record h { tx_error = TxError.disabled }, false)
    else if not (is_idle h.state)
    then (record h { tx_error = TxError.busy }, false)
    else if ltb h.tx_buffer_size response.data_length
    then (let r = reset_tx h in record r { tx_error = TxError.overflow }, false)
    else (
      record h {
        tx_error = TxError.none;
        active_response = ready;
        nbytes_to_send = u16 (1 + 1 + 1 + 2 + ready.data_length + 4);
        state = State.transmitting;
      },
      true,
    )

unfoldable pub data_to_send : CommHandler → ℕ
data_to_send h = if not (is_transmitting h.state) then 0 else sub16 h.nbytes_to_send h.nbytes_sent

-- The loops of `pop_data` write `buffer[i]` for `i < len`: `room` is `len - i`. Each gives the bytes
-- that it writes, and `m_nbytes_sent` behind them.
unfoldable pub header_byte : Response → ℕ → ℕ
header_byte r sent =
    if sent == 0
    then low_bits r.command_id 8
    else if sent == 1
    then low_bits r.subfunction_id 8
    else if sent == 2
    then low_bits r.response_code 8
    else if sent == 3
    then low_bits (r.data_length >>> 8) 8
    else low_bits r.data_length 8

unfoldable pub header_loop : Response → ℕ → ℕ → List ℕ × ℕ
header_loop r zero sent = ([], sent)
header_loop r (suc room) sent =
    let rest = header_loop r room (sent + 1) in
    if ltb sent 5 then (header_byte r sent ∷ rest.0, rest.1) else ([], sent)

unfoldable pub data_copy : Response → ℕ → ℕ → List ℕ × ℕ
data_copy r room sent =
    let data_byte_sent = sub16 sent 5 in
    let remaining_data_bytes = sub16 r.data_length (sub16 sent 5) in
    let data_bytes_to_copy = if ltb room remaining_data_bytes then room else remaining_data_bytes in
    if ltb data_byte_sent r.data_length
    then (
      take data_bytes_to_copy (drop (r.data_length - remaining_data_bytes) r.payload),
      u16 (sent + data_bytes_to_copy),
    )
    else ([], sent)

unfoldable pub crc_loop : Response → ℕ → ℕ → List ℕ × ℕ
crc_loop r zero sent = ([], sent)
crc_loop r (suc room) sent =
    let rest = crc_loop r room (u16 (sent + 1)) in
    let crc_position = u16 (r.data_length + 5) in
    if sent == crc_position
    then (low_bits (r.crc >>> 24) 8 ∷ rest.0, rest.1)
    else if sent == crc_position + 1
    then (low_bits (r.crc >>> 16) 8 ∷ rest.0, rest.1)
    else if sent == crc_position + 2
    then (low_bits (r.crc >>> 8) 8 ∷ rest.0, rest.1)
    else if sent == crc_position + 3
    then (low_bits (r.crc >>> 0) 8 ∷ rest.0, rest.1)
    else ([], sent)

-- The bytes that `pop_data` writes for a length of at most what is left, and `m_nbytes_sent` then.
unfoldable pub pop_bytes : Response → ℕ → ℕ → List ℕ × ℕ
pop_bytes r len sent =
    let head = header_loop r len sent in
    let room = len - length head.0 in
    let body = data_copy r room head.1 in
    let tail = crc_loop r (room - length body.0) body.1 in
    if leb 5 head.1 && ltb (length head.0) len then (head.0 ++ (body.0 ++ tail.0), tail.1) else head

-- The result is what `buffer` holds up to the returned count.
unfoldable pub pop_data : Timebase → CommHandler → ℕ → CommHandler × List ℕ
unfolding reset_tx wait_next_request
pop_data timebase h len =
    let nbytes_to_send = sub16 h.nbytes_to_send h.nbytes_sent in
    let len' = if ltb nbytes_to_send len then nbytes_to_send else len in
    let out = pop_bytes h.active_response len' h.nbytes_sent in
    let h' = record h { nbytes_sent = out.1 } in
    if not (is_transmitting h.state)
    then (h, [])
    else if leb h.nbytes_to_send out.1
    then (wait_next_request timebase (reset_tx h'), out.0)
    else (h', out.0)
