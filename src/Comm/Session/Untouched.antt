-- ===== src/Comm/Session/Untouched.antt =====
-- What a reception leaves alone.
use scrutiny_embedded.Base.{
  ℕ, zero, suc, true, false, List, [], ◌∷◌, ◌≡◌, refl, sym, ◌∙◌, arith, inl, inr, Bool-cases, subst,
  IsBytes, ◌<◌, ◌^◌, length,
}
use scrutiny_embedded.Timebase.{Timebase}
use scrutiny_embedded.Protocol.{RxError}
use scrutiny_embedded.Comm.Valid.{IsValid}
use scrutiny_embedded.Comm.Run.Loop.{receive_loop-Received}
use scrutiny_embedded.Comm.Frame.Stream.{before_receive-IsValid}
use scrutiny_embedded.Comm.State.{CommHandler, State, RxFsmState, reset_rx, is_transmitting}
use scrutiny_embedded.Comm.Receive.{
  on_command, on_subfunction, end_of_length, on_length, store_data, on_data, on_crc, is_open,
  process_active_request, dispatch, store_crc_byte, end_of_crc, receive_loop, before_receive,
  receive_data,
}

pub record Untouched (h h' : CommHandler) : Type 0 where
  pub enabled : h'.enabled ≡ h.enabled
  pub session_active : h'.session_active ≡ h.session_active
  pub session_id : h'.session_id ≡ h.session_id
  pub tx_buffer_size : h'.tx_buffer_size ≡ h.tx_buffer_size
  pub response : h'.active_response ≡ h.active_response
  pub nbytes_to_send : h'.nbytes_to_send ≡ h.nbytes_to_send
  pub nbytes_sent : h'.nbytes_sent ≡ h.nbytes_sent
  pub quiet : is_transmitting h'.state ≡ false

trans : {a b c : CommHandler} → Untouched a b → Untouched b c → Untouched a c
trans p q = record {
  enabled = q.enabled ∙ p.enabled;
  session_active = q.session_active ∙ p.session_active;
  session_id = q.session_id ∙ p.session_id;
  tx_buffer_size = q.tx_buffer_size ∙ p.tx_buffer_size;
  response = q.response ∙ p.response;
  nbytes_to_send = q.nbytes_to_send ∙ p.nbytes_to_send;
  nbytes_sent = q.nbytes_sent ∙ p.nbytes_sent;
  quiet = q.quiet;
}

-- Nothing of this is written.
same : {h : CommHandler} → is_transmitting h.state ≡ false → Untouched h h
same quiet = record {
  enabled = refl;
  session_active = refl;
  session_id = refl;
  tx_buffer_size = refl;
  response = refl;
  nbytes_to_send = refl;
  nbytes_sent = refl;
  quiet = quiet;
}

module _ (timebase : Timebase) where
  reset_rx-Untouched :
      (h : CommHandler) → is_transmitting h.state ≡ false → Untouched h (reset_rx timebase h)
  unfolding reset_rx
  reset_rx-Untouched h q = ground arith

  on_command-Untouched :
      (h : CommHandler) (b : ℕ) (bs : List ℕ)
      → is_transmitting h.state ≡ false
      → Untouched h (on_command h b bs).0
  unfolding on_command
  on_command-Untouched h b bs q = ground arith

  on_length-Untouched :
      (h : CommHandler) (b : ℕ) (bs : List ℕ)
      → is_transmitting h.state ≡ false
      → Untouched h (on_length h b bs).0
  unfolding on_length end_of_length
  on_length-Untouched h b [] q = ground arith
  on_length-Untouched h b (b' ∷ bs) q = ground arith

  on_data-Untouched :
      (h : CommHandler) (bs : List ℕ)
      → is_transmitting h.state ≡ false
      → Untouched h (on_data h bs).0
  unfolding on_data store_data
  on_data-Untouched h bs q = ground arith

  process_active_request-Untouched :
      (h : CommHandler)
      → is_transmitting h.state ≡ false
      → Untouched h (process_active_request timebase h)
  unfolding process_active_request
  process_active_request-Untouched h q = ground (arith, reset_rx-Untouched h q)

  end_of_crc-Untouched : (h : CommHandler) → Untouched h (end_of_crc timebase h)
  unfolding end_of_crc
  end_of_crc-Untouched h =
      let h' = record h { state = State.idle } in
      ground (arith, process_active_request-Untouched h' refl, reset_rx-Untouched h' refl)

  on_crc-Untouched :
      (h : CommHandler) (b : ℕ) (bs : List ℕ)
      → is_transmitting h.state ≡ false
      → Untouched h (on_crc timebase h b bs).0
  unfolding on_crc store_crc_byte
  on_crc-Untouched h b bs q = ground (arith, end_of_crc-Untouched (store_crc_byte h b))

  dispatch-Untouched :
      (s : RxFsmState) (h : CommHandler) (b : ℕ) (bs : List ℕ)
      → is_transmitting h.state ≡ false
      → Untouched h (dispatch timebase s h b bs).0
  unfolding dispatch on_subfunction
  dispatch-Untouched RxFsmState.wait_for_command h b bs q = on_command-Untouched h b bs q
  dispatch-Untouched RxFsmState.wait_for_subfunction h b bs q = ground arith
  dispatch-Untouched RxFsmState.wait_for_length h b bs q = on_length-Untouched h b bs q
  dispatch-Untouched RxFsmState.wait_for_data h b bs q = on_data-Untouched h (b ∷ bs) q
  dispatch-Untouched RxFsmState.wait_for_crc h b bs q = on_crc-Untouched h b bs q
  dispatch-Untouched RxFsmState.wait_for_process h b bs q = same q
  dispatch-Untouched RxFsmState.error h b bs q = same q

  receive_loop-Untouched :
      (fuel : ℕ) (h : CommHandler) (bs : List ℕ)
      → is_transmitting h.state ≡ false
      → Untouched h (receive_loop timebase fuel h bs).0
  unfolding receive_loop
  receive_loop-Untouched zero h [] q = same q
  receive_loop-Untouched (suc fuel) h [] q = same q
  receive_loop-Untouched zero h (b ∷ bs) q = same q
  receive_loop-Untouched (suc fuel) h (b ∷ bs) q =
      let one = dispatch-Untouched h.rx_state h b bs q in
      let round = dispatch timebase h.rx_state h b bs in
      let rest = receive_loop-Untouched fuel round.0 round.1 one.quiet in
      elim (Bool-cases (is_open h)) [ inl o ↦ rw (o) (trans one rest) | inr c ↦ rw (c) (same q) ]

  before_receive-Untouched :
      (h : CommHandler) → is_transmitting h.state ≡ false → Untouched h (before_receive timebase h)
  unfolding before_receive reset_rx
  before_receive-Untouched h q = ground arith

  -- The two ways that `receive_data` goes while the handler is not transmitting.
  begin : CommHandler → List ℕ → CommHandler
  begin h [] = h
  begin h (b ∷ bs) = before_receive timebase h

  receive_data-on :
      (h : CommHandler) (bs : List ℕ)
      → h.enabled ≡ true
      → is_transmitting h.state ≡ false
      → receive_data timebase h bs ≡ (receive_loop timebase (length bs) (begin h bs) bs).0
  unfolding receive_data begin
  receive_data-on h [] e q = ground arith
  receive_data-on h (b ∷ bs) e q = ground arith

  pub receive_data-off :
      (h : CommHandler) (bs : List ℕ)
      → h.enabled ≡ false
      → receive_data timebase h bs ≡ record h { rx_error = RxError.disabled }
  unfolding receive_data
  receive_data-off h bs e = ground arith

  -- While it is sending nothing is received.
  pub receive_data-sending :
      (h : CommHandler) (bs : List ℕ)
      → h.enabled ≡ true
      → is_transmitting h.state ≡ true
      → receive_data timebase h bs ≡ h
  unfolding receive_data
  receive_data-sending h bs e s = ground arith

  begin-Untouched :
      (h : CommHandler) (bs : List ℕ) → is_transmitting h.state ≡ false → Untouched h (begin h bs)
  unfolding begin
  begin-Untouched h [] q = same q
  begin-Untouched h (b ∷ bs) q = before_receive-Untouched h q

  pub receive_data-Untouched :
      (h : CommHandler) (bs : List ℕ)
      → is_transmitting h.state ≡ false
      → Untouched h (receive_data timebase h bs)
  receive_data-Untouched h bs q =
      let start = begin-Untouched h bs q in
      let rest = receive_loop-Untouched (length bs) (begin h bs) bs start.quiet in
      elim (Bool-cases h.enabled) [
        | inl e ↦ subst (Untouched h) (sym (receive_data-on h bs e q)) (trans start rest)
        | inr e ↦ subst (Untouched h) (sym (receive_data-off h bs e)) (ground (arith, q))
      ]

  begin-IsValid : (h : CommHandler) (bs : List ℕ) → IsValid h → IsValid (begin h bs)
  unfolding begin
  begin-IsValid h [] v = v
  begin-IsValid h (b ∷ bs) v = before_receive-IsValid timebase h v

  restated : (h : CommHandler) → IsValid h → IsValid (record h { rx_error = RxError.disabled })
  restated h v = ground arith

  pub receive_data-IsValid :
      (h : CommHandler) (bs : List ℕ)
      → IsBytes bs
      → length bs < 2 ^ 16
      → is_transmitting h.state ≡ false
      → IsValid h
      → IsValid (receive_data timebase h bs)
  receive_data-IsValid h bs bytes short q v = elim (Bool-cases h.enabled) [
    | inl e ↦
        subst IsValid (sym (receive_data-on h bs e q))
          (receive_loop-Received timebase (length bs) (begin h bs) bs (omega arith) short bytes
            (begin-IsValid h bs v)).valid
    | inr e ↦ subst IsValid (sym (receive_data-off h bs e)) (restated h v)
  ]
