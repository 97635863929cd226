-- ===== src/Comm/Receive.antt =====
-- `receive_data` and `process_active_request`: the reception of a request, byte by byte.
use scrutiny_embedded.Base.{
  ℕ, zero, suc, Bool, true, false, not, ◌&&◌, ◌||◌, List, [], ◌∷◌, ◌+◌, ◌*◌, ◌/◌, ◌%◌, ◌^◌, ltb,
  leb, ◌==◌, if◌then◌else◌, length, take, drop, bit_or, u8, u16, u32, sub16, ◌<<<◌, low_bits,
}
use scrutiny_embedded.Timebase.{Timebase, get_timestamp, has_expired}
use scrutiny_embedded.Tools.Crc.{crc32}
use scrutiny_embedded.Protocol.{RxError}
use scrutiny_embedded.Protocol.CommandId
use scrutiny_embedded.Protocol.CommControl
use scrutiny_embedded.Comm.State.{
  CommHandler, State, RxFsmState, reset_rx, is_transmitting, is_idle, is_error,
}

-- SCRUTINY_COMM_RX_TIMEOUT_US * 10, in steps of 100 ns.
abbrev pub rx_timeout : ℕ
rx_timeout = 50000 * 10

-- `memcpy(&buffer[at], bytes, n)` with `n` the length of the list. What would fall outside the
-- buffer is not written; the length is tested against the size of the buffer before.
unfoldable pub write_at : List ℕ → ℕ → List ℕ → List ℕ
write_at [] at bytes = []
write_at (x ∷ xs) zero [] = x ∷ xs
write_at (x ∷ xs) zero (b ∷ bs) = b ∷ write_at xs zero bs
write_at (x ∷ xs) (suc at) bytes = x ∷ write_at xs at bytes

-- `memcmp(a, b, n) == 0` of two lists of `n` bytes
unfoldable pub same_bytes : List ℕ → List ℕ → Bool
same_bytes [] [] = true
same_bytes (a ∷ as') (b ∷ bs) = (a == b) && same_bytes as' bs
same_bytes _ _ = false

unfoldable pub received_discover_request : CommHandler → Bool
unfolding same_bytes
received_discover_request h =
    let request = h.active_request in
    if not (request.command_id == CommandId.comm_control)
    then false
    else if not (request.subfunction_id == CommControl.discover)
    then false
    else if ltb request.data_length 4
    then false
    else if not (same_bytes CommControl.discover_magic (take 4 h.rx_buffer))
    then false
    else true

unfoldable pub received_connect_request : CommHandler → Bool
received_connect_request h =
    let request = h.active_request in
    if not (request.command_id == CommandId.comm_control)
    then false
    else if not (request.subfunction_id == CommControl.connect)
    then false
    else true

-- The cases of the `switch` on `m_rx_state`, at the byte `b = data[i]`, with `bs` the bytes
-- behind it. Each returns the state and the bytes that are left for the next round.
unfoldable pub on_command : CommHandler → ℕ → List ℕ → CommHandler × List ℕ
on_command h b bs =
    let request = h.active_request in
    if not (b / 2 ^ 7 % 2 == 0)
    then (
      record h { crc = 0; rx_error = RxError.invalid_command; rx_state = RxFsmState.error },
      b ∷ bs,
    )
    else (
      record h {
        active_request = record request { command_id = b };
        crc = crc32 (b ∷ []) 0;
        rx_state = RxFsmState.wait_for_subfunction;
      },
      bs,
    )

unfoldable pub on_subfunction : CommHandler → ℕ → List ℕ → CommHandler × List ℕ
on_subfunction h b bs =
    let request = h.active_request in
    (
      record h {
        active_request = record request { subfunction_id = b };
        crc = crc32 (b ∷ []) h.crc;
        rx_state = RxFsmState.wait_for_length;
        per_state_data = 0;
      },
      bs,
    )

-- What `next_state` does.
unfoldable pub end_of_length : CommHandler → CommHandler
end_of_length h =
    let request = h.active_request in
    if request.data_length == 0
    then record h { per_state_data = 0; rx_state = RxFsmState.wait_for_crc }
    else record h { per_state_data = 0; rx_state = RxFsmState.wait_for_data }

unfoldable pub on_length : CommHandler → ℕ → List ℕ → CommHandler × List ℕ
on_length h b [] =
    let request = h.active_request in
    if h.per_state_data == 0
    then (
      record h {
        active_request = record request { data_length = u16 (b <<< 8) };
        crc = crc32 (b ∷ []) h.crc;
        per_state_data = 1;
      },
      [],
    )
    else (
      end_of_length (record h {
        active_request = record request { data_length = u16 (bit_or request.data_length b) };
        crc = crc32 (b ∷ []) h.crc;
        per_state_data = 2;
      }),
      [],
    )
on_length h b (b' ∷ bs) =
    let request = h.active_request in
    if h.per_state_data == 0
    then (
      end_of_length (record h {
        active_request = record request { data_length = u16 (bit_or (b <<< 8) b') };
        crc = crc32 (b ∷ b' ∷ []) h.crc;
        per_state_data = 2;
      }),
      bs,
    )
    else (
      end_of_length (record h {
        active_request = record request { data_length = u16 (bit_or request.data_length b) };
        crc = crc32 (b ∷ []) h.crc;
        per_state_data = 2;
      }),
      b' ∷ bs,
    )

-- The bytes are the `data_bytes_to_read` next ones.
unfoldable pub store_data : CommHandler → List ℕ → CommHandler
unfolding write_at
store_data h bytes =
    let request = h.active_request in
    let received = u16 (h.per_state_data + length bytes) in
    let h' = record h {
      rx_buffer = write_at h.rx_buffer h.per_state_data bytes;
      crc = crc32 bytes h.crc;
      per_state_data = received;
    } in
    if leb request.data_length received
    then record h' { per_state_data = 0; rx_state = RxFsmState.wait_for_crc }
    else h'

unfoldable pub data_bytes_to_read : CommHandler → List ℕ → ℕ
data_bytes_to_read h bytes =
    let request = h.active_request in
    let available_bytes = u16 (length bytes) in
    let missing_bytes = sub16 request.data_length h.per_state_data in
    if leb missing_bytes available_bytes then missing_bytes else available_bytes

unfoldable pub on_data : CommHandler → List ℕ → CommHandler × List ℕ
unfolding data_bytes_to_read
on_data h bytes =
    let request = h.active_request in
    if ltb h.rx_buffer_size request.data_length
    then (record h { rx_error = RxError.overflow; rx_state = RxFsmState.error }, bytes)
    else (
      store_data h (take (data_bytes_to_read h bytes) bytes),
      drop (data_bytes_to_read h bytes) bytes,
    )

-- `!m_request_received && m_rx_state != RxFSMState::Error`
abbrev pub is_open : CommHandler → Bool
is_open h = not h.request_received && not (is_error h.rx_state)

unfoldable pub store_crc_byte : CommHandler → ℕ → CommHandler
store_crc_byte h b =
    let request = h.active_request in
    record h {
      active_request = record request { crc = bit_or (u32 (request.crc <<< 8)) (low_bits b 8) };
      per_state_data = u8 (h.per_state_data + 1);
    }

module _ (timebase : Timebase) where
  unfoldable pub process_active_request : CommHandler → CommHandler
  process_active_request h =
      let must_process =
        if not h.session_active
        then received_discover_request h || received_connect_request h
        else true in
      if must_process
      then record h { rx_state = RxFsmState.wait_for_process; request_received = true }
      else reset_rx timebase h

  -- The request is complete: its checksum decides.
  unfoldable pub end_of_crc : CommHandler → CommHandler
  end_of_crc h =
      let h' = record h { state = State.idle } in
      if h.crc == h.active_request.crc then process_active_request h' else reset_rx timebase h'

  unfoldable pub on_crc : CommHandler → ℕ → List ℕ → CommHandler × List ℕ
  unfolding store_crc_byte
  on_crc h b bs =
      let h' = store_crc_byte h b in
      if leb 4 h'.per_state_data then (end_of_crc h', bs) else (h', bs)

  -- One round of the loop at the bytes `b ∷ bs`.
  unfoldable pub dispatch : RxFsmState → CommHandler → ℕ → List ℕ → CommHandler × List ℕ
  dispatch RxFsmState.wait_for_command h b bs = on_command h b bs
  dispatch RxFsmState.wait_for_subfunction h b bs = on_subfunction h b bs
  dispatch RxFsmState.wait_for_length h b bs = on_length h b bs
  dispatch RxFsmState.wait_for_data h b bs = on_data h (b ∷ bs)
  dispatch RxFsmState.wait_for_crc h b bs = on_crc h b bs
  dispatch RxFsmState.wait_for_process h b bs = (h, b ∷ bs)
  dispatch RxFsmState.error h b bs = (h, b ∷ bs)

  -- The loop, on fuel. It stops with the bytes that it has not read.
  unfoldable pub receive_loop : ℕ → CommHandler → List ℕ → CommHandler × List ℕ
  receive_loop fuel h [] = (h, [])
  receive_loop zero h (b ∷ bs) = (h, b ∷ bs)
  receive_loop (suc fuel) h (b ∷ bs) =
      let next = (let round = dispatch h.rx_state h b bs in receive_loop fuel round.0 round.1) in
      if is_open h then next else (h, b ∷ bs)

  -- The work before the loop where there is data: a reception that stalled is given up.
  unfoldable pub before_receive : CommHandler → CommHandler
  unfolding get_timestamp
  before_receive h =
      let h' =
        if has_expired timebase h.last_rx_timestamp rx_timeout
        then record (reset_rx timebase h) { state = State.idle }
        else h in
      record h' {
        last_rx_timestamp = get_timestamp timebase;
        state = if is_idle h'.state then State.receiving else h'.state;
      }

  -- Each round of the loop reads a byte or ends it, so there are no more rounds than bytes.
  unfoldable pub receive_data : CommHandler → List ℕ → CommHandler
  receive_data h bytes =
      let h' = if length bytes == 0 then h else before_receive h in
      if not h.enabled
      then record h { rx_error = RxError.disabled }
      else if is_transmitting h.state
      then h
      else (receive_loop (length bytes) h' bytes).0
