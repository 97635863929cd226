-- ===== src/Comm/Run/Loop.antt =====
-- The loop of `receive_data` is the handler that is given its bytes one at a time.
use scrutiny_embedded.Base.{
  ℕ, zero, suc, true, false, not, List, [], ◌∷◌, ◌+◌, ◌^◌, ◌≤◌, ◌<◌, ◌≡◌, ◌⊎◌, refl, sym, ap, ◌∙◌,
  arith, length, drop, Bool-cases, inl, inr, ◌==◌, ltb, leb, length-drop, u8, &&-false, IsBytes,
}
use scrutiny_embedded.Timebase.{Timebase}
use scrutiny_embedded.Comm.State.{CommHandler, RxFsmState}
use scrutiny_embedded.Comm.Receive.{
  dispatch, is_open, receive_loop, on_command, on_length, on_data, on_crc, data_bytes_to_read,
  on_subfunction,
}
use scrutiny_embedded.Comm.Valid.{IsValid, dispatch-IsValid}
use scrutiny_embedded.Comm.Run.{
  run, feed_as, run_open, run_closed, on_command-run, on_subfunction-run, on_crc-run, on_length-run,
}
use scrutiny_embedded.Comm.Run.Payload.{on_data-run, reads}

module _ (timebase : Timebase) where
  -- One round of the loop, in every state, and the bytes one at a time.
  dispatch-run :
      (s : RxFsmState) (h : CommHandler) (b : ℕ) (bs : List ℕ)
      → h.rx_state ≡ s
      → is_open h ≡ true
      → IsValid h
      → b < 256
      → length (b ∷ bs) < 2 ^ 16
      → let round = dispatch timebase s h b bs in
        run timebase h (b ∷ bs) ≡ run timebase round.0 round.1
  unfolding dispatch
  dispatch-run RxFsmState.wait_for_command h b bs e o v byte short =
      run_open timebase h b bs o
      ∙ ap (λ x. run timebase x bs) (feed_as timebase h b e)
      ∙ on_command-run timebase h b bs
  dispatch-run RxFsmState.wait_for_subfunction h b bs e o v byte short =
      run_open timebase h b bs o
      ∙ ap (λ x. run timebase x bs) (feed_as timebase h b e)
      ∙ on_subfunction-run timebase h b bs
  dispatch-run RxFsmState.wait_for_length h b bs e o v byte short =
      run_open timebase h b bs o
      ∙ ap (λ x. run timebase x bs) (feed_as timebase h b e)
      ∙ on_length-run timebase h b bs e o byte
  dispatch-run RxFsmState.wait_for_data h b bs e o v byte short =
      on_data-run timebase h b bs e o (ground (arith, v.progress)) v.length_word short
  dispatch-run RxFsmState.wait_for_crc h b bs e o v byte short =
      run_open timebase h b bs o
      ∙ ap (λ x. run timebase x bs) (feed_as timebase h b e)
      ∙ on_crc-run timebase h b bs
  dispatch-run RxFsmState.wait_for_process h b bs e o v byte short = refl
  dispatch-run RxFsmState.error h b bs e o v byte short = refl

  -- What a round leaves: it reads a byte, or the loop ends.
  record Leaves (b : ℕ) (bs : List ℕ) (round : CommHandler × List ℕ) : Type 0 where
    bytes : IsBytes round.1
    shorter :
        (length round.1 ≤ length bs)
        ⊎ (is_open round.0 ≡ false) × (length round.1 ≤ length (b ∷ bs))

  IsBytes-drop : (n : ℕ) (bs : List ℕ) → IsBytes bs → IsBytes (drop n bs)
  IsBytes-drop zero bs h = h
  IsBytes-drop (suc n) [] h = tt
  IsBytes-drop (suc n) (b ∷ bs) h = IsBytes-drop n bs h.1

  on_command-Leaves :
      (h : CommHandler) (b : ℕ) (bs : List ℕ) → IsBytes (b ∷ bs) → Leaves b bs (on_command h b bs)
  unfolding on_command
  on_command-Leaves h b bs v = ground (arith, &&-false (not h.request_received))

  on_length-Leaves :
      (h : CommHandler) (b : ℕ) (bs : List ℕ) → IsBytes (b ∷ bs) → Leaves b bs (on_length h b bs)
  unfolding on_length
  on_length-Leaves h b [] v = elim (Bool-cases (h.per_state_data == 0)) [
    | inl e ↦ rw (e, on_length) (record { bytes = tt; shorter = inl (omega arith) })
    | inr e ↦ rw (e, on_length) (record { bytes = tt; shorter = inl (omega arith) })
  ]
  on_length-Leaves h b (b' ∷ bs) v = elim (Bool-cases (h.per_state_data == 0)) [
    | inl e ↦ rw (e, on_length) (record { bytes = v.1.1; shorter = inl (omega arith) })
    | inr e ↦ rw (e, on_length) (record { bytes = v.1; shorter = inl (omega arith) })
  ]

  on_data-Leaves :
      (h : CommHandler) (b : ℕ) (bs : List ℕ)
      → IsValid h
      → h.rx_state ≡ RxFsmState.wait_for_data
      → length (b ∷ bs) < 2 ^ 16
      → IsBytes (b ∷ bs)
      → Leaves b bs (on_data h (b ∷ bs))
  unfolding on_data
  on_data-Leaves h b bs v s short bytes =
      elim (Bool-cases (ltb h.rx_buffer_size h.active_request.data_length)) [
        | inl e ↦
            rw (e, on_data)
              (record {
                bytes = bytes;
                shorter = inr (&&-false (not h.request_received), omega arith);
              })
        | inr e ↦
            rw (e, on_data)
              (record {
                bytes = IsBytes-drop n (b ∷ bs) bytes;
                shorter = inl (omega (arith, length-drop n (b ∷ bs), some));
              })
      ]
    where
      n : ℕ
      n = data_bytes_to_read h (b ∷ bs)

      left : h.per_state_data < h.active_request.data_length
      left = ground (arith, v.progress)

      some : 0 < n
      some = (reads timebase h b bs left v.length_word short).0

  on_crc-Leaves :
      (h : CommHandler) (b : ℕ) (bs : List ℕ)
      → IsBytes (b ∷ bs)
      → Leaves b bs (on_crc timebase h b bs)
  unfolding on_crc
  on_crc-Leaves h b bs v = elim (Bool-cases (leb 4 (u8 (h.per_state_data + 1)))) [
    | inl e ↦ rw (e, on_crc) (record { bytes = v.1; shorter = inl (omega arith) })
    | inr e ↦ rw (e, on_crc) (record { bytes = v.1; shorter = inl (omega arith) })
  ]

  closed_when :
      (h : CommHandler)
      → IsValid h
      → (h.rx_state ≡ RxFsmState.wait_for_process) ⊎ (h.rx_state ≡ RxFsmState.error)
      → is_open h ≡ false
  closed_when h v s = ground (arith, v.progress)

  dispatch-Leaves :
      (s : RxFsmState) (h : CommHandler) (b : ℕ) (bs : List ℕ)
      → h.rx_state ≡ s
      → IsValid h
      → IsBytes (b ∷ bs)
      → length (b ∷ bs) < 2 ^ 16
      → Leaves b bs (dispatch timebase s h b bs)
  unfolding dispatch on_subfunction
  dispatch-Leaves RxFsmState.wait_for_command h b bs e v bytes short =
      on_command-Leaves h b bs bytes
  dispatch-Leaves RxFsmState.wait_for_subfunction h b bs e v bytes short = record {
    bytes = bytes.1;
    shorter = inl (omega arith);
  }
  dispatch-Leaves RxFsmState.wait_for_length h b bs e v bytes short = on_length-Leaves h b bs bytes
  dispatch-Leaves RxFsmState.wait_for_data h b bs e v bytes short =
      on_data-Leaves h b bs v e short bytes
  dispatch-Leaves RxFsmState.wait_for_crc h b bs e v bytes short = on_crc-Leaves h b bs bytes
  dispatch-Leaves RxFsmState.wait_for_process h b bs e v bytes short = record {
    bytes = bytes;
    shorter = inr (closed_when h v (inl e), omega arith);
  }
  dispatch-Leaves RxFsmState.error h b bs e v bytes short = record {
    bytes = bytes;
    shorter = inr (closed_when h v (inr e), omega arith);
  }

  loop_closed :
      (fuel : ℕ) (h : CommHandler) (bs : List ℕ)
      → is_open h ≡ false
      → receive_loop timebase fuel h bs ≡ (h, bs)
  unfolding receive_loop
  loop_closed zero h [] e = refl
  loop_closed (suc fuel) h [] e = refl
  loop_closed zero h (b ∷ bs) e = refl
  loop_closed (suc fuel) h (b ∷ bs) e = rw e

  -- The result of the loop, and that it ends by its own test.
  pub record Received (h : CommHandler) (bs : List ℕ) (out : CommHandler × List ℕ) : Type 0 where
    pub result : out.0 ≡ run timebase h bs
    pub ends : (out.1 ≡ []) ⊎ (is_open out.0 ≡ false)
    pub valid : IsValid out.0

  Received-closed :
      (h : CommHandler) (bs : List ℕ) → IsValid h → is_open h ≡ false → Received h bs (h, bs)
  Received-closed h bs v e = record {
    result = sym (run_closed timebase h bs e);
    ends = inr e;
    valid = v;
  }

  -- For a handler whose reception is valid and fewer than 2 ^ 16 bytes, fuel for as many rounds as there
  -- are bytes is enough for the loop, in every state: it ends because no byte is left or because a
  -- request is complete or refused, its result is that of the handler that is given the bytes one at a
  -- time, and the reception is valid again.
  pub receive_loop-Received :
      (fuel : ℕ) (h : CommHandler) (bs : List ℕ)
      → length bs ≤ fuel
      → length bs < 2 ^ 16
      → IsBytes bs
      → IsValid h
      → Received h bs (receive_loop timebase fuel h bs)
  unfolding receive_loop
  receive_loop-Received zero h [] enough short bytes v = record {
    result = unfold run in refl;
    ends = inl refl;
    valid = v;
  }
  receive_loop-Received (suc fuel) h [] enough short bytes v = record {
    result = unfold run in refl;
    ends = inl refl;
    valid = v;
  }
  receive_loop-Received zero h (b ∷ bs) enough short bytes v = absurd (omega arith)
  receive_loop-Received (suc fuel) h (b ∷ bs) enough short bytes v = elim (Bool-cases (is_open h)) [
    | inl o ↦ rw o (elim left.shorter [
      | inl less ↦ again o (
          receive_loop-Received fuel round.0 round.1 (omega arith) (omega arith) left.bytes
            (dispatch-IsValid timebase h.rx_state h b bs refl v))
      | inr shut ↦ again o (
          rw (loop_closed fuel round.0 round.1 shut.0) (
            Received-closed round.0 round.1 (dispatch-IsValid timebase h.rx_state h b bs refl v)
              shut.0))
    ])
    | inr c ↦ rw c (Received-closed h (b ∷ bs) v c)
  ]
    where
      round : CommHandler × List ℕ
      round = dispatch timebase h.rx_state h b bs

      left : Leaves b bs round
      left = dispatch-Leaves h.rx_state h b bs refl v bytes short

      again :
          {out : CommHandler × List ℕ}
          → is_open h ≡ true
          → Received round.0 round.1 out
          → Received h (b ∷ bs) out
      again o r = record {
        result = r.result ∙ sym (dispatch-run h.rx_state h b bs refl o v bytes.0 short);
        ends = r.ends;
        valid = r.valid;
      }
