-- ===== src/Comm/Run.antt =====
-- The handler that is given one byte at a time, and the rounds of the loop that read more than one.
pub mod Payload
pub mod Loop
use scrutiny_embedded.Base.{
  ℕ, zero, suc, Bool, true, false, not, ◌&&◌, List, [], ◌∷◌, ◌++◌, ◌+◌, ◌-◌, ◌*◌, ◌/◌, ◌%◌, ◌^◌,
  ◌≤◌, ◌<◌, ◌≡◌, ◌⊎◌, refl, sym, ap, ◌∙◌, arith, length, take, drop, u16, bit_or, Bool-cases, inl,
  inr, ◌==◌, ltb, leb, if◌then◌else◌, take-append-drop, length-take, length-drop, ◌<<<◌, min, u8,
  &&-false,
}
use scrutiny_embedded.Tools.Crc.{crc32}
use scrutiny_embedded.Tools.Crc.Chain.{crc32-append}
use scrutiny_embedded.Timebase.{Timebase}
use scrutiny_embedded.Comm.State.{CommHandler, State, RxFsmState, reset_rx, is_error}
use scrutiny_embedded.Comm.Receive.{
  write_at, on_command, on_subfunction, end_of_length, on_length, store_data, data_bytes_to_read,
  on_data, on_crc, dispatch, is_open, receive_loop,
}
use scrutiny_embedded.Comm.Valid.{IsValid, dispatch-IsValid}

module _ (timebase : Timebase) where
  -- The handler that is given one byte at a time.
  unfoldable pub feed : CommHandler → ℕ → CommHandler
  feed h b = (dispatch timebase h.rx_state h b []).0

  unfoldable pub run : CommHandler → List ℕ → CommHandler
  run h [] = h
  run h (b ∷ bs) = let next = run (feed h b) bs in if is_open h then next else h

  pub run_closed : (h : CommHandler) (bs : List ℕ) → is_open h ≡ false → run h bs ≡ h
  unfolding run
  run_closed h [] e = refl
  run_closed h (b ∷ bs) e = rw e

  pub run_open :
      (h : CommHandler) (b : ℕ) (bs : List ℕ)
      → is_open h ≡ true
      → run h (b ∷ bs) ≡ run (feed h b) bs
  unfolding run
  run_open h b bs e = rw e

  pub run-append : (h : CommHandler) (xs ys : List ℕ) → run h (xs ++ ys) ≡ run (run h xs) ys
  run-append h [] ys = unfold run in refl
  run-append h (x ∷ xs) ys = elim (Bool-cases (is_open h)) [
    | inl e ↦ rw (run_open h x (xs ++ ys) e, run_open h x xs e) (run-append (feed h x) xs ys)
    | inr e ↦ rw (run_closed h (x ∷ xs ++ ys) e, run_closed h (x ∷ xs) e, run_closed h ys e)
  ]

  pub feed_as :
      {s : RxFsmState} (h : CommHandler) (b : ℕ)
      → h.rx_state ≡ s
      → feed h b ≡ (dispatch timebase s h b []).0
  unfolding feed
  feed_as h b e = ap (λ s. (dispatch timebase s h b []).0) e

  -- What a round of the loop leaves is read by the next ones.
  pub on_command-run :
      (h : CommHandler) (b : ℕ) (bs : List ℕ)
      → run (on_command h b []).0 bs ≡ run (on_command h b bs).0 (on_command h b bs).1
  unfolding on_command
  on_command-run h b bs = elim (Bool-cases (b / 2 ^ 7 % 2 == 0)) [
    | inl e ↦ rw (e, on_command)
    | inr e ↦
        rw (e, on_command)
          (run_closed _ bs (&&-false (not h.request_received))
            ∙ sym (run_closed _ (b ∷ bs) (&&-false (not h.request_received))))
  ]

  pub on_subfunction-run :
      (h : CommHandler) (b : ℕ) (bs : List ℕ)
      → run (on_subfunction h b []).0 bs ≡ run (on_subfunction h b bs).0 (on_subfunction h b bs).1
  unfolding on_subfunction
  on_subfunction-run h b bs = refl

  pub on_crc-run :
      (h : CommHandler) (b : ℕ) (bs : List ℕ)
      → run (on_crc timebase h b []).0 bs
        ≡ run (on_crc timebase h b bs).0 (on_crc timebase h b bs).1
  unfolding on_crc
  on_crc-run h b bs = elim (Bool-cases (leb 4 (u8 (h.per_state_data + 1)))) [
    | inl e ↦ rw (e, on_crc)
    | inr e ↦ rw (e, on_crc)
  ]

  on_length_pair :
      (h : CommHandler) (b b' : ℕ) (bs : List ℕ)
      → h.rx_state ≡ RxFsmState.wait_for_length
      → is_open h ≡ true
      → b < 256
      → run
          (record h {
            active_request = record (h.active_request) { data_length = u16 (b <<< 8) };
            crc = crc32 (b ∷ []) h.crc;
            per_state_data = 1;
          })
          (b' ∷ bs)
        ≡ run
            (end_of_length (record h {
              active_request = record (h.active_request) {
                data_length = u16 (bit_or (b <<< 8) b');
              };
              crc = crc32 (b ∷ b' ∷ []) h.crc;
              per_state_data = 2;
            }))
            bs
  unfolding on_length dispatch
  on_length_pair h b b' bs s o lt =
      let fits : u16 (b <<< 8) ≡ b <<< 8 = omega arith in
      run_open _ b' bs o
      ∙ ap (λ x. run x bs) (feed_as _ b' s ∙ rw (fits, crc32-append (b ∷ []) (b' ∷ []) h.crc) refl)

  pub on_length-run :
      (h : CommHandler) (b : ℕ) (bs : List ℕ)
      → h.rx_state ≡ RxFsmState.wait_for_length
      → is_open h ≡ true
      → b < 256
      → run (on_length h b []).0 bs ≡ run (on_length h b bs).0 (on_length h b bs).1
  unfolding on_length
  on_length-run h b [] s o lt = elim (Bool-cases (h.per_state_data == 0)) [
    | inl e ↦ rw (e, on_length)
    | inr e ↦ rw (e, on_length)
  ]
  on_length-run h b (b' ∷ bs) s o lt = elim (Bool-cases (h.per_state_data == 0)) [
    | inl e ↦ rw (e, on_length) (on_length_pair h b b' bs s o lt)
    | inr e ↦ rw (e, on_length)
  ]
