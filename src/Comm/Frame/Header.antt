-- ===== src/Comm/Frame/Header.antt =====
-- The header of a frame, one byte at a time.
use scrutiny_embedded.Base.{
  ℕ, true, false, List, [], ◌∷◌, ◌++◌, ◌*◌, ◌/◌, ◌%◌, ◌^◌, ◌<◌, ◌≡◌, length, take, drop, ◌>>>◌,
  low_bits, ◌⊎◌, refl, sym, ap, ◌∙◌, arith, bit_or, inl, inr, ◌==◌,
}
use scrutiny_embedded.Base.Bits.Or.{bit_or-shift}
use scrutiny_embedded.Tools.Crc.{crc32}
use scrutiny_embedded.Tools.Crc.Chain.{crc32-append}
use scrutiny_embedded.Comm.State.{CommHandler, RxFsmState, is_transmitting}
use scrutiny_embedded.Comm.Receive.{on_command, on_subfunction, on_length, end_of_length}
use scrutiny_embedded.Comm.Frame.{Frame, header, wire, Fits}
use scrutiny_embedded.Comm.Frame.Awaits.{Awaits, Identified, Underway}

module _ (f : Frame) (c : ℕ) (h : CommHandler) (fits : Fits f h)
    (pending : h.request_received ≡ false) (quiet : is_transmitting h.state ≡ false) where
  pub command_byte :
      h.rx_state ≡ RxFsmState.wait_for_command
      → Underway f c (on_command h f.command []).0 (drop 1 (wire f c))
  unfolding on_command
  command_byte e =
      let low : (f.command / 2 ^ 7 % 2 == 0) ≡ true = ground (arith, fits.command) in
      rw (low, on_command)
        (record {
          awaits = Awaits.subfunction refl refl refl refl;
          fits = fits;
          pending = pending;
          quiet = quiet;
        })

  pub subfunction_byte :
      h.rx_state ≡ RxFsmState.wait_for_subfunction
      → h.active_request.command_id ≡ f.command
      → h.crc ≡ crc32 (take 1 (header f)) 0
      → Underway f c (on_subfunction h f.subfunction []).0 (drop 2 (wire f c))
  unfolding on_subfunction
  subfunction_byte e id crc = record {
    awaits =
        Awaits.length_high refl (id, refl) refl
          (rw (crc, ← crc32-append (take 1 (header f)) (f.subfunction ∷ []) 0) refl) refl;
    fits = fits;
    pending = pending;
    quiet = quiet;
  }

  pub length_high_byte :
      h.rx_state ≡ RxFsmState.wait_for_length
      → Identified f h
      → h.per_state_data ≡ 0
      → h.crc ≡ crc32 (take 2 (header f)) 0
      → Underway f c (on_length h (low_bits (length f.payload >>> 8) 8) []).0 (drop 3 (wire f c))
  unfolding on_length
  length_high_byte e ids per crc =
      let first : (h.per_state_data == 0) ≡ true = ground arith in
      rw (first, on_length)
        (record {
          awaits =
              Awaits.length_low e ids refl (omega arith)
                (rw
                  (
                    crc,
                    ← crc32-append (take 2 (header f)) (low_bits (length f.payload >>> 8) 8 ∷ []) 0,
                  )
                  refl)
                refl;
          fits = fits;
          pending = pending;
          quiet = quiet;
        })

  -- What the length says, once both its bytes are there.
  length_lem :
      bit_or (low_bits (length f.payload >>> 8) 8 * 2 ^ 8) (low_bits (length f.payload) 8)
      ≡ length f.payload
  length_lem =
      let r = fits.room in
      let w = fits.word in
      omega (
        arith,
        bit_or-shift 8 (length f.payload / 256 % 256) (length f.payload % 256) (omega arith),
      )

  none_or_some : (p : List ℕ) → (p ≡ []) ⊎ (0 < length p)
  none_or_some [] = inl refl
  none_or_some (x ∷ p) = inr (omega arith)

  end_of_header :
      (g : CommHandler)
      → c < 2 ^ 32
      → g.rx_buffer ≡ h.rx_buffer
      → g.rx_buffer_size ≡ h.rx_buffer_size
      → g.request_received ≡ false
      → is_transmitting g.state ≡ false
      → Identified f g
      → g.active_request.data_length ≡ length f.payload
      → g.crc ≡ crc32 (header f) 0
      → Underway f c (end_of_length g) (drop 4 (wire f c))
  unfolding end_of_length
  end_of_header g word buf size p q ids count crc = elim (none_or_some f.payload) [
    | inl e ↦
        let zero_length : (g.active_request.data_length == 0) ≡ true = ground arith in
        rw (zero_length, end_of_length)
          (record {
            awaits = Awaits.crc_0 (record {
              state = refl;
              ids = ids;
              count = count;
              stored = rw e refl;
              checksum = crc ∙ ap (λ (p : List ℕ). crc32 (header f ++ p) 0) (sym e);
              bytes_received = refl;
              high = omega arith;
              rest_is = rw e refl;
            });
            fits = rw (buf, size) fits;
            pending = p;
            quiet = q;
          })
    | inr some ↦
        let some_length : (g.active_request.data_length == 0) ≡ false = ground arith in
        rw (some_length, end_of_length)
          (record {
            awaits = Awaits.payload (record {
              state = refl;
              ids = ids;
              count = count;
              done = [];
              more = f.payload;
              split = refl;
              left = some;
              bytes_received = refl;
              stored = refl;
              checksum = crc;
              rest_is = refl;
            });
            fits = rw (buf, size) fits;
            pending = p;
            quiet = q;
          })
  ]

  pub length_low_byte :
      c < 2 ^ 32
      → h.rx_state ≡ RxFsmState.wait_for_length
      → Identified f h
      → h.per_state_data ≡ 1
      → h.active_request.data_length ≡ low_bits (length f.payload >>> 8) 8 * 2 ^ 8
      → h.crc ≡ crc32 (take 3 (header f)) 0
      → Underway f c (on_length h (low_bits (length f.payload) 8) []).0 (drop 4 (wire f c))
  unfolding on_length
  length_low_byte word e ids per high crc =
      let second : (h.per_state_data == 0) ≡ false = ground arith in
      let r = fits.room in
      let w = fits.word in
      rw (second, on_length)
        (end_of_header _ word refl refl pending quiet ids (rw high (omega (arith, length_lem))) (
          rw (crc, ← crc32-append (take 3 (header f)) (low_bits (length f.payload) 8 ∷ []) 0) refl))
