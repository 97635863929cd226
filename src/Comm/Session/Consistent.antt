-- ===== src/Comm/Session/Consistent.antt =====
-- The invariant of the whole handler, and that each operation keeps it.
use scrutiny_embedded.Base.{
  ℕ, Bool, true, false, List, ◌+◌, ◌-◌, ◌^◌, ◌≤◌, ◌<◌, ◌≡◌, sym, ◌∙◌, arith, inl, inr, Bool-cases,
  subst, length, IsBytes,
}
use scrutiny_embedded.Timebase.{Timebase}
use scrutiny_embedded.Protocol.{
  Response, minimum_rx_buffer_size, minimum_tx_buffer_size, maximum_rx_buffer_size,
  maximum_tx_buffer_size,
}
use scrutiny_embedded.Comm.Frame.Delivery.{IsReady}
use scrutiny_embedded.Comm.State.{
  CommHandler, reset, reset_rx, reset_tx, wait_next_request, is_transmitting, init,
}
use scrutiny_embedded.Comm.Receive.{receive_data}
use scrutiny_embedded.Comm.Valid.{IsValid}
use scrutiny_embedded.Comm.Transmit.{send_response, add_crc, pop_data}
use scrutiny_embedded.Comm.Transmit.Wire.{Sendable}
use scrutiny_embedded.Comm.Session.{process, heartbeat, connect, disconnect, disable, enable}
use scrutiny_embedded.Comm.Session.Untouched.{
  receive_data-Untouched, receive_data-IsValid, receive_data-sending,
}

-- What is true of the transmission in each state.
abbrev pub Counters : Bool → CommHandler → Type 0
Counters true h =
    (h.nbytes_to_send ≡ h.active_response.data_length + 9)
    × (h.nbytes_sent < h.nbytes_to_send)
    × Sendable h.active_response
Counters false h = (h.nbytes_to_send ≡ 0) × (h.nbytes_sent ≡ 0)

-- The invariant: the reception is valid; a handler without a session has no session identifier; one
-- that is disabled has no session and does not send; the counters fit the response that is sent.
pub record IsConsistent (h : CommHandler) : Type 0 where
  pub reception : IsValid h
  pub tx_word : h.tx_buffer_size ≤ 0xFFFF - 16
  pub disconnected : h.session_active ≡ false → h.session_id ≡ 0
  pub off : h.enabled ≡ false → h.session_active ≡ false
  pub silent : h.enabled ≡ false → is_transmitting h.state ≡ false
  pub counters : Counters (is_transmitting h.state) h

module _ (timebase : Timebase) (h : CommHandler) (c : IsConsistent h) where
  pub reset-IsConsistent : IsConsistent (reset timebase h)
  unfolding reset reset_rx reset_tx
  reset-IsConsistent = ground (arith, c, c.silent, c.off, c.counters)

  pub process-IsConsistent : IsConsistent (process timebase h)
  unfolding process
  process-IsConsistent = ground (arith, c, reset-IsConsistent)

  pub heartbeat-IsConsistent : (challenge : ℕ) → IsConsistent (heartbeat timebase h challenge).0
  unfolding heartbeat
  heartbeat-IsConsistent challenge = ground (arith, c)

  pub connect-IsConsistent : IsConsistent (connect timebase h).0
  unfolding connect reset_rx
  connect-IsConsistent = ground (arith, c)

  pub disconnect-IsConsistent : IsConsistent (disconnect timebase h)
  unfolding disconnect reset_rx reset_tx
  disconnect-IsConsistent = ground (arith, c)

  pub wait_next_request-IsConsistent : IsConsistent (wait_next_request timebase h)
  unfolding wait_next_request reset_rx
  wait_next_request-IsConsistent = ground (arith, c)

  pub enable-IsConsistent : IsConsistent (enable h)
  unfolding enable
  enable-IsConsistent = ground (arith, c)

  pub disable-IsConsistent : IsConsistent (disable timebase h)
  unfolding disable reset reset_rx reset_tx
  disable-IsConsistent = ground (arith, c, c.silent, c.off, c.counters)

  pub receive_data-IsConsistent :
      (bs : List ℕ) → IsBytes bs → length bs < 2 ^ 16 → IsConsistent (receive_data timebase h bs)
  receive_data-IsConsistent bs bytes short = elim (Bool-cases (is_transmitting h.state)) [
    | inl sending ↦
        let on : h.enabled ≡ true = ground (arith, c.silent, sending) in
        subst IsConsistent (sym (receive_data-sending timebase h bs on sending)) c
    | inr quiet ↦
        let u = receive_data-Untouched timebase h bs quiet in
        record {
          reception = receive_data-IsValid timebase h bs bytes short quiet c.reception;
          tx_word = omega (arith, u.tx_buffer_size, c.tx_word);
          disconnected = λ e. u.session_id ∙ c.disconnected (sym u.session_active ∙ e);
          off = λ e. u.session_active ∙ c.off (sym u.enabled ∙ e);
          silent = λ e. u.quiet;
          counters =
              let before = subst (λ b. Counters b h) quiet c.counters in
              subst (λ b. Counters b (receive_data timebase h bs)) (sym u.quiet)
                (u.nbytes_to_send ∙ before.0, u.nbytes_sent ∙ before.1);
        }
  ]

  -- A response that points to as many bytes as it has.
  pub send_response-IsConsistent :
      (r : Response) → r.data_length ≤ length r.payload → IsConsistent (send_response h r).0
  unfolding send_response add_crc reset_tx
  send_response-IsConsistent r stored = ground (arith, c, stored)

  pub pop_data-IsConsistent : (len : ℕ) → IsConsistent (pop_data timebase h len).0
  unfolding pop_data reset_tx wait_next_request reset_rx
  pop_data-IsConsistent len = ground (arith, c)

-- The integrator's buffers are as long as it says, and of a size that is allowed.
pub record GoodBuffers (rx : List ℕ) (rx_size : ℕ) (tx_size : ℕ) : Type 0 where
  pub rx_stored : rx_size ≤ length rx
  pub rx_least : minimum_rx_buffer_size ≤ rx_size
  pub rx_most : rx_size ≤ maximum_rx_buffer_size
  pub tx_least : minimum_tx_buffer_size ≤ tx_size
  pub tx_most : tx_size ≤ maximum_tx_buffer_size

-- The handler after its start, whatever it was before.
pub init-IsConsistent :
    (timebase : Timebase) (h : CommHandler) (rx : List ℕ) (rx_size : ℕ) (tx : List ℕ)
    (tx_size seed : ℕ)
    → GoodBuffers rx rx_size tx_size
    → IsConsistent (init timebase h rx rx_size tx tx_size seed)
      × IsReady (init timebase h rx rx_size tx tx_size seed)
unfolding init reset reset_rx reset_tx
init-IsConsistent timebase h rx rx_size tx tx_size seed g = ground (arith, g)
