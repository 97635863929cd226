-- ===== src/Comm/Tests.antt =====
-- Runs of the communication handler on concrete requests and responses.
use scrutiny_embedded.Base.{
  ℕ, true, false, [], ◌∷◌, ◌<◌, ◌≡◌, ◌≢◌, ◌↔◌, refl, arith, take, drop, big_endian32,
}
use scrutiny_embedded.Timebase.{has_expired, elapsed_since}
use scrutiny_embedded.Timebase.Elapsed.{total}
use scrutiny_embedded.Tools.Crc.{crc32, crc_loop, crc_byte, lookup_table}
use scrutiny_embedded.Tools.Crc.Chain.{crc32-lt}
use scrutiny_embedded.Protocol.{Response}
use scrutiny_embedded.Comm.State.{CommHandler, init, reset, reset_rx, reset_tx}
use scrutiny_embedded.Comm.Receive.{receive_loop}
use scrutiny_embedded.Comm.Run.Loop.{Received, receive_loop-Received}
use scrutiny_embedded.Comm.Frame.{Frame, Fits, frame_crc, admitted, Accepted}
use scrutiny_embedded.Comm.Frame.Stream.{receive_all, all_bytes}
use scrutiny_embedded.Comm.Frame.Delivery.{receive_all-wire}
use scrutiny_embedded.Comm.Transmit.{send_response, add_crc, pop_data, pop_bytes, header_loop}
use scrutiny_embedded.Comm.Transmit.Busy.{Disturbance, disturb, disturb-Sending}
use scrutiny_embedded.Comm.Transmit.Wire.{answer}
use scrutiny_embedded.Comm.Transmit.Sending.{
  Sending, pops, Prepared, Progress, outgoing, pops-answer,
}
use scrutiny_embedded.Comm.Session.{connect, disconnect, heartbeat, heartbeat_timeout}
use scrutiny_embedded.Comm.Session.Consistent.{GoodBuffers, init-IsConsistent}
use scrutiny_embedded.Comm.Session.Timeout.{
  polls, polls-connect, polls-heartbeat, heartbeat-heartbeat, connect-disconnect,
}
use scrutiny_embedded.Comm.Samples.{blank, noon, buffer}

abbrev started : CommHandler
started = init noon blank buffer 32 buffer 32 7

good_buffers : GoodBuffers buffer 32 32
good_buffers = record {
  rx_stored = omega arith;
  rx_least = omega arith;
  rx_most = omega arith;
  tx_least = omega arith;
  tx_most = omega arith;
}

abbrev connect_request : Frame
connect_request = record { command = 2; subfunction = 4; payload = 0x82 ∷ 0x90 ∷ 0x22 ∷ 0x66 ∷ [] }

connect_request-Fits : Fits connect_request started
unfolding init reset reset_rx reset_tx
connect_request-Fits = record {
  command = omega arith;
  subfunction = omega arith;
  payload = omega arith;
  room = omega arith;
  storage = omega arith;
  word = omega arith;
}

-- The clock wraps between the two pieces.
receive_all-wire_example : Accepted connect_request (
    receive_all started (
      (noon, 2 ∷ 4 ∷ 0 ∷ 4 ∷ 0x82 ∷ [])
      ∷ (record { time_100ns = 300 }, 0x90 ∷ 0x22 ∷ 0x66 ∷ big_endian32 (frame_crc connect_request))
      ∷ []))
unfolding has_expired elapsed_since all_bytes crc32 crc_loop crc_byte lookup_table init reset
    reset_rx reset_tx admitted
receive_all-wire_example =
    receive_all-wire connect_request (frame_crc connect_request) started noon 2
      (4 ∷ 0 ∷ 4 ∷ 0x82 ∷ [])
      ((record { time_100ns = 300 }, 0x90 ∷ 0x22 ∷ 0x66 ∷ big_endian32 (frame_crc connect_request))
        ∷ [])
      (init-IsConsistent noon blank buffer 32 buffer 32 7 good_buffers).1 connect_request-Fits
      (crc32-lt (2 ∷ 4 ∷ 0 ∷ 4 ∷ 0x82 ∷ 0x90 ∷ 0x22 ∷ 0x66 ∷ []) 0) refl (omega arith)
      (omega arith, omega arith, refl, tt)

-- An answer of three bytes of data, popped in pieces of two, six and a hundred.
abbrev reply : Response
reply = record {
  command_id = 1;
  subfunction_id = 2;
  response_code = 0;
  data_length = 3;
  data_max_length = 32;
  payload = 10 ∷ 20 ∷ 30 ∷ buffer;
  crc = 0;
}

reply-Prepared : Prepared started reply
unfolding init reset reset_rx reset_tx
reply-Prepared = record {
  enabled = refl;
  is_idle = refl;
  rewound = refl;
  room = omega arith;
  word = omega arith;
  stored = omega arith;
}

pops-answer_example :
    ((send_response started reply).1 ≡ true)
    × ((pops noon (send_response started reply).0 (2 ∷ 6 ∷ 100 ∷ [])).1 ≡ take 108 (answer reply))
    × Progress
        (outgoing started reply)
        108
        (pops noon (send_response started reply).0 (2 ∷ 6 ∷ 100 ∷ [])).0
pops-answer_example = pops-answer noon started reply (2 ∷ 6 ∷ 100 ∷ []) reply-Prepared

-- The whole of it.
answer-reply : take 108 (answer reply) ≡ 0x81 ∷ 2 ∷ 0 ∷ 0 ∷ 3 ∷ 10 ∷ 20 ∷ 30 ∷ drop 8 (answer reply)
answer-reply = refl

-- Two steps that together reach the timeout.
polls-connect_example :
    ((polls noon (connect noon started).0 (30000000 ∷ 20000000 ∷ [])).session_active ≡ true)
    ↔ (50000000 < heartbeat_timeout)
unfolding connect init reset reset_rx reset_tx total
polls-connect_example =
    polls-connect noon started (30000000 ∷ 20000000 ∷ []) (omega arith) refl (omega arith)

abbrev connected : CommHandler
connected = (connect noon started).0

polls-heartbeat_example :
    ((polls noon (heartbeat noon connected 5).0 (30000000 ∷ 19999999 ∷ [])).session_active ≡ true)
    ↔ (49999999 < heartbeat_timeout)
unfolding connect init reset reset_rx reset_tx heartbeat total
polls-heartbeat_example =
    polls-heartbeat noon connected 5 (30000000 ∷ 19999999 ∷ []) (omega arith) refl (omega arith)

heartbeat-heartbeat_example :
    (((heartbeat noon (heartbeat noon connected 5).0 6).1 ≡ true) ↔ (◌≢◌ {A = ℕ} 6 5))
    × (◌≡◌ {A = ℕ} 6 5
        → (heartbeat noon (heartbeat noon connected 5).0 6).0 ≡ (heartbeat noon connected 5).0)
unfolding connect init reset reset_rx reset_tx heartbeat
heartbeat-heartbeat_example = heartbeat-heartbeat noon noon connected 5 6 refl

connect-disconnect_example :
    (connect noon (disconnect noon connected)).0.session_id ≢ connected.session_id
unfolding init reset reset_rx reset_tx
connect-disconnect_example = connect-disconnect noon noon noon started refl refl (omega arith)

-- A request that is cut off, then more of it.
receive_loop-Received_example :
    Received noon started (2 ∷ 4 ∷ 0 ∷ []) (receive_loop noon 3 started (2 ∷ 4 ∷ 0 ∷ []))
receive_loop-Received_example =
    receive_loop-Received noon 3 started (2 ∷ 4 ∷ 0 ∷ []) (omega arith) (omega arith) (omega arith)
      (init-IsConsistent noon blank buffer 32 buffer 32 7 good_buffers).1.valid

-- The handler after its answer was accepted and two bytes of it were popped.
abbrev busy : CommHandler
busy = (pops noon (send_response started reply).0 (2 ∷ [])).0

busy-Sending : Sending (outgoing started reply) 2 busy
unfolding init reset reset_rx reset_tx send_response add_crc pops pop_data pop_bytes header_loop
    crc32 crc_loop crc_byte lookup_table
busy-Sending = record {
  transmitting = refl;
  response = refl;
  total = refl;
  sent = refl;
  sendable = record { stored = omega arith; small = omega arith };
}

disturb-Sending_example :
    Sending
      (outgoing started reply)
      2
      (disturb busy (Disturbance.arrival noon (2 ∷ 4 ∷ []) ∷ Disturbance.response reply ∷ []))
    × ((send_response
          (disturb busy (Disturbance.arrival noon (2 ∷ 4 ∷ []) ∷ Disturbance.response reply ∷ []))
          reply).1
        ≡ false)
unfolding init reset reset_rx reset_tx send_response add_crc pops pop_data pop_bytes header_loop
disturb-Sending_example =
    disturb-Sending (outgoing started reply) 2 busy
      (Disturbance.arrival noon (2 ∷ 4 ∷ []) ∷ Disturbance.response reply ∷ []) reply refl
      busy-Sending
