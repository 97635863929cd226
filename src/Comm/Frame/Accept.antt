-- ===== src/Comm/Frame/Accept.antt =====
-- The bytes of a frame, in order, lead to its verdict.
use scrutiny_embedded.Base.{
  ℕ, suc, Bool, true, not, ◌&&◌, List, [], ◌∷◌, ◌++◌, ◌+◌, ◌^◌, ◌<◌, ◌≡◌, length, take,
  big_endian32, refl, ap, subst, ◌∙◌, arith, ◌==◌, length-append,
}
use scrutiny_embedded.Timebase.{Timebase}
use scrutiny_embedded.Tools.Crc.{crc32}
use scrutiny_embedded.Comm.State.{CommHandler, RxFsmState, is_error, reset_rx}
use scrutiny_embedded.Comm.Receive.{
  dispatch, is_open, on_command, on_subfunction, on_length, end_of_length, on_data, store_data,
  on_crc, end_of_crc, process_active_request,
}
use scrutiny_embedded.Comm.Run.{feed, run, feed_as, run_open}
use scrutiny_embedded.Comm.Run.Payload.{feed_data, IsOpenFor}
use scrutiny_embedded.Comm.Frame.{Frame, header, frame_crc, admitted, Verdict}
use scrutiny_embedded.Comm.Frame.Awaits.{Awaits, Identified, Underway}
use scrutiny_embedded.Comm.Frame.Header.{
  command_byte, subfunction_byte, length_high_byte, length_low_byte,
}
use scrutiny_embedded.Comm.Frame.Data.{payload_byte}
use scrutiny_embedded.Comm.Frame.Verdict.{crc_byte_0, crc_byte_1, crc_byte_2, crc_byte_3}

module _ {x y : ℕ} {xs ys : List ℕ} (e : x ∷ xs ≡ y ∷ ys) where
  head_eq : x ≡ y
  head_eq = cc

  tail_eq : xs ≡ ys
  tail_eq = cc

-- What no byte of a frame changes.
pub record SameSession (h g : CommHandler) : Type 0 where
  pub session : g.session_active ≡ h.session_active
  pub enabled : g.enabled ≡ h.enabled

module _ (timebase : Timebase) where
  on_crc-SameSession : (h : CommHandler) (b : ℕ) → SameSession h (on_crc timebase h b []).0
  unfolding on_crc end_of_crc process_active_request reset_rx
  on_crc-SameSession h b = ground arith

  dispatch-SameSession :
      (s : RxFsmState) (h : CommHandler) (b : ℕ) → SameSession h (dispatch timebase s h b []).0
  unfolding dispatch on_command on_subfunction on_length end_of_length on_data store_data
  dispatch-SameSession RxFsmState.wait_for_command h b = ground arith
  dispatch-SameSession RxFsmState.wait_for_subfunction h b = ground arith
  dispatch-SameSession RxFsmState.wait_for_length h b = ground arith
  dispatch-SameSession RxFsmState.wait_for_data h b = ground arith
  dispatch-SameSession RxFsmState.wait_for_crc h b = on_crc-SameSession h b
  dispatch-SameSession RxFsmState.wait_for_process h b = ground arith
  dispatch-SameSession RxFsmState.error h b = ground arith

  module _ (f : Frame) (c : ℕ) (word : c < 2 ^ 32) where
    payload-Underway :
        (h : CommHandler) (b : ℕ) (rest done more : List ℕ)
        → Underway f c h (b ∷ rest)
        → h.rx_state ≡ RxFsmState.wait_for_data
        → Identified f h
        → h.active_request.data_length ≡ length f.payload
        → f.payload ≡ done ++ more
        → 0 < length more
        → h.per_state_data ≡ length done
        → take (length done) h.rx_buffer ≡ done
        → h.crc ≡ crc32 (header f ++ done) 0
        → b ∷ rest ≡ more ++ big_endian32 c
        → Underway f c (feed timebase h b) rest
    payload-Underway h b rest done [] u s ids count split left received stored crc e =
        absurd (omega arith)
    payload-Underway h b rest done (m ∷ more) u s ids count split left received stored crc e =
        rw (feed_data timebase h b open_for, head_eq e, tail_eq e)
          (payload_byte f c word h u.fits u.pending u.quiet m done more s ids count split received
            stored crc)
      where
        total : length f.payload ≡ length done + suc (length more)
        total = ap length split ∙ length-append done (m ∷ more)

        open_for : IsOpenFor h 1
        open_for = record {
          in_data = s;
          is_open = ground (arith, u.pending);
          some_left = omega (arith, total);
          within = omega (arith, total);
          length_word = omega (arith, u.fits.room, u.fits.word);
          fits = omega (arith, u.fits.room);
        }

    feed-Underway :
        (h : CommHandler) (b : ℕ) (rest : List ℕ)
        → Underway f c h (b ∷ rest)
        → 0 < length rest
        → Underway f c (feed timebase h b) rest
    feed-Underway h b rest u some = step u.awaits
      where
        go :
            {s : RxFsmState}
            → h.rx_state ≡ s
            → {b' : ℕ} {rest' : List ℕ} → b ∷ rest ≡ b' ∷ rest'
            → Underway f c (dispatch timebase s h b' []).0 rest'
            → Underway f c (feed timebase h b) rest
        go {s} e {b'} r v = rw (feed_as timebase h b e, head_eq r, tail_eq r) v

        step : Awaits f c h (b ∷ rest) → Underway f c (feed timebase h b) rest
        step (Awaits.command s e) =
            go s e (unfold dispatch in command_byte f c h u.fits u.pending u.quiet s)
        step (Awaits.subfunction s id crc e) =
            go s e (unfold dispatch in subfunction_byte f c h u.fits u.pending u.quiet s id crc)
        step (Awaits.length_high s ids per crc e) =
            go s e
              (unfold dispatch in length_high_byte f c h u.fits u.pending u.quiet s ids per crc)
        step (Awaits.length_low s ids per high crc e) = go s e (
            unfold dispatch in
            length_low_byte f c h u.fits u.pending u.quiet word s ids per high crc)
        step (Awaits.payload v) =
            payload-Underway h b rest v.done v.more u v.state v.ids v.count v.split v.left
              v.bytes_received v.stored v.checksum v.rest_is
        step (Awaits.crc_0 v) = go v.state v.rest_is (
            unfold dispatch in crc_byte_0 timebase f c word h (b ∷ rest) u.fits u.pending u.quiet v)
        step (Awaits.crc_1 v) = go v.state v.rest_is (
            unfold dispatch in crc_byte_1 timebase f c word h (b ∷ rest) u.fits u.pending u.quiet v)
        step (Awaits.crc_2 v) = go v.state v.rest_is (
            unfold dispatch in crc_byte_2 timebase f c word h (b ∷ rest) u.fits u.pending u.quiet v)
        step (Awaits.crc_3 v) = absurd (omega (arith, ap length (tail_eq v.rest_is)))

    abbrev Decided : CommHandler → CommHandler → Type 0
    Decided h g = Verdict ((frame_crc f == c) && admitted h.session_active f) f g

    feed-Verdict :
        (h : CommHandler) (b : ℕ) → Underway f c h (b ∷ []) → Decided h (feed timebase h b)
    feed-Verdict h b u = step u.awaits
      where
        step : Awaits f c h (b ∷ []) → Decided h (feed timebase h b)
        step (Awaits.command s e) = absurd (omega (arith, ap length e))
        step (Awaits.subfunction s id crc e) = absurd (omega (arith, ap length e))
        step (Awaits.length_high s ids per crc e) = absurd (omega (arith, ap length e))
        step (Awaits.length_low s ids per high crc e) =
            absurd (omega (arith, ap length e, length-append f.payload (big_endian32 c)))
        step (Awaits.payload v) =
            absurd
              (omega (arith, v.left, ap length v.rest_is ∙ length-append v.more (big_endian32 c)))
        step (Awaits.crc_0 v) = absurd (omega (arith, ap length v.rest_is))
        step (Awaits.crc_1 v) = absurd (omega (arith, ap length v.rest_is))
        step (Awaits.crc_2 v) = absurd (omega (arith, ap length v.rest_is))
        step (Awaits.crc_3 v) =
            rw (feed_as timebase h b v.state, head_eq v.rest_is)
              (unfold dispatch in
                crc_byte_3 timebase f c word h (b ∷ []) u.fits u.pending u.quiet v)

    open-Underway : (h : CommHandler) (rest : List ℕ) → Underway f c h rest → is_open h ≡ true
    open-Underway h rest u = step u.awaits
      where
        open_in : {s : RxFsmState} → h.rx_state ≡ s → not (is_error s) ≡ true → is_open h ≡ true
        open_in e t = rw (u.pending, e) t

        step : Awaits f c h rest → is_open h ≡ true
        step (Awaits.command s e) = open_in s refl
        step (Awaits.subfunction s id crc e) = open_in s refl
        step (Awaits.length_high s ids per crc e) = open_in s refl
        step (Awaits.length_low s ids per high crc e) = open_in s refl
        step (Awaits.payload v) = open_in v.state refl
        step (Awaits.crc_0 v) = open_in v.state refl
        step (Awaits.crc_1 v) = open_in v.state refl
        step (Awaits.crc_2 v) = open_in v.state refl
        step (Awaits.crc_3 v) = open_in v.state refl

    -- A part of the frame leads on to the rest of it.
    pub run-Underway :
        (bs more : List ℕ) (h : CommHandler)
        → Underway f c h (bs ++ more)
        → 0 < length more
        → Underway f c (run timebase h bs) more × SameSession h (run timebase h bs)
    run-Underway [] more h u some = unfold run in (u, record { session = refl; enabled = refl })
    run-Underway (b ∷ bs) more h u some =
        let next = feed-Underway h b (bs ++ more) u (omega (arith, length-append bs more)) in
        let same : SameSession h (feed timebase h b) =
          unfold feed in dispatch-SameSession h.rx_state h b in
        later next same (run-Underway bs more (feed timebase h b) next some)
      where
        later :
            Underway f c (feed timebase h b) (bs ++ more)
            → SameSession h (feed timebase h b)
            → Underway f c (run timebase (feed timebase h b) bs) more
              × SameSession (feed timebase h b) (run timebase (feed timebase h b) bs)
            → Underway f c (run timebase h (b ∷ bs)) more × SameSession h (run timebase h (b ∷ bs))
        later n s r =
            rw (run_open timebase h b bs (open-Underway h _ u))
              (r.0, record { session = r.1.session ∙ s.session; enabled = r.1.enabled ∙ s.enabled })

    -- All that is left of it leads to the verdict.
    pub run-Verdict :
        (b : ℕ) (bs : List ℕ) (h : CommHandler)
        → Underway f c h (b ∷ bs)
        → Decided h (run timebase h (b ∷ bs))
    run-Verdict b [] h u =
        rw (run_open timebase h b [] (open-Underway h _ u)) (unfold run in feed-Verdict h b u)
    run-Verdict b (b' ∷ bs) h u =
        let next = feed-Underway h b (b' ∷ bs) u (omega arith) in
        let same : SameSession h (feed timebase h b) =
          unfold feed in dispatch-SameSession h.rx_state h b in
        rw (run_open timebase h b (b' ∷ bs) (open-Underway h _ u)) (
          subst
            (λ (a : Bool).
              Verdict ((frame_crc f == c) && admitted a f) f
                (run timebase (feed timebase h b) (b' ∷ bs)))
            same.session (run-Verdict b' bs (feed timebase h b) next))
