-- ===== src/Comm/Frame/Verdict.antt =====
-- The checksum of a frame, one byte at a time, and what becomes of the request.
use scrutiny_embedded.Base.{
  ℕ, zero, suc, true, false, not, ◌&&◌, ◌||◌, List, [], ◌∷◌, ◌+◌, ◌*◌, ◌%◌, ◌^◌, ◌≤◌, ◌<◌, ◌≡◌,
  length, take, drop, ◌>>>◌, ◌<<<◌, low_bits, big_endian32, refl, sym, ap, ap₂, ◌∙◌, arith, u8, u32,
  Bool-cases, inl, inr, ◌==◌, leb, if◌then◌else◌,
}
use scrutiny_embedded.Base.Bits.Or.{bit_or-shift}
use scrutiny_embedded.Timebase.{Timebase}
use scrutiny_embedded.Protocol.CommandId
use scrutiny_embedded.Protocol.CommControl
use scrutiny_embedded.Comm.State.{CommHandler, State, is_transmitting, reset_rx}
use scrutiny_embedded.Comm.Receive.{
  store_crc_byte, on_crc, end_of_crc, process_active_request, received_discover_request,
  received_connect_request, same_bytes,
}
use scrutiny_embedded.Comm.Frame.{Frame, frame_crc, Fits, admitted, Verdict}
use scrutiny_embedded.Comm.Frame.Awaits.{Awaits, Identified, InCrc, Underway}

-- The checksum moves up by a byte.
crc_shift :
    (h : CommHandler) (b : ℕ)
    → b < 256
    → (store_crc_byte h b).active_request.crc ≡ h.active_request.crc % 2 ^ 24 * 256 + b
unfolding store_crc_byte
crc_shift h b lt =
    let up : u32 (h.active_request.crc <<< 8) ≡ h.active_request.crc % 2 ^ 24 * 2 ^ 8 =
      omega arith in
    let low : low_bits b 8 ≡ b = omega arith in
    rw (up, low) (bit_or-shift 8 (h.active_request.crc % 2 ^ 24) b lt)

take-take : (n m : ℕ) (xs : List ℕ) → n ≤ m → take n (take m xs) ≡ take n xs
take-take zero m xs h = refl
take-take (suc n) zero xs h = absurd (omega arith)
take-take (suc n) (suc m) [] h = refl
take-take (suc n) (suc m) (x ∷ xs) h = ap (λ t. x ∷ t) (take-take n m xs (omega arith))

module _ (f : Frame) (h : CommHandler) (ids : Identified f h)
    (count : h.active_request.data_length ≡ length f.payload)
    (stored : take (length f.payload) h.rx_buffer ≡ f.payload) where
  connect_lem :
      received_connect_request h
      ≡ ((f.command == CommandId.comm_control) && (f.subfunction == CommControl.connect))
  unfolding received_connect_request
  connect_lem = rw (ids.0, ids.1) (ground arith)

  magic : 4 ≤ length f.payload → take 4 h.rx_buffer ≡ take 4 f.payload
  magic le = sym (take-take 4 (length f.payload) h.rx_buffer le) ∙ ap (take 4) stored

  discover_lem : received_discover_request h ≡ (
      (f.command == CommandId.comm_control)
      && ((f.subfunction == CommControl.discover)
          && leb 4 (length f.payload)
          && same_bytes CommControl.discover_magic (take 4 f.payload)))
  unfolding received_discover_request
  discover_lem = elim (Bool-cases (leb 4 (length f.payload))) [
    | inl e ↦ rw (ids.0, ids.1, count, magic (ground arith)) (ground arith)
    | inr e ↦ rw (ids.0, ids.1, count) (ground arith)
  ]

  must_process_lem :
      (if not h.session_active
        then received_discover_request h || received_connect_request h
        else true)
      ≡ admitted h.session_active f
  unfolding admitted
  must_process_lem = rw (discover_lem, connect_lem) (ground arith)

  process_lem :
      (timebase : Timebase)
      → h.state ≡ State.idle
      → Verdict (admitted h.session_active f) f (process_active_request timebase h)
  unfolding process_active_request reset_rx
  process_lem timebase s = elim (Bool-cases (admitted h.session_active f)) [
    | inl e ↦
        rw (e, must_process_lem ∙ e, process_active_request)
          (record {
            received = refl;
            waiting = refl;
            command = ids.0;
            subfunction = ids.1;
            count = count;
            payload = stored;
            is_idle = s;
          })
    | inr e ↦
        rw (e, must_process_lem ∙ e, process_active_request)
          (record { received = refl; ready = refl; is_idle = ground arith })
  ]

module _ (timebase : Timebase) (f : Frame) (c : ℕ) (word : c < 2 ^ 32) (h : CommHandler)
    (rest : List ℕ) (fits : Fits f h) (pending : h.request_received ≡ false)
    (quiet : is_transmitting h.state ≡ false) where
  pub crc_byte_0 :
      InCrc f c 0 h rest
      → Underway f c (on_crc timebase h (low_bits (c >>> 24) 8) []).0 (drop 1 (big_endian32 c))
  unfolding on_crc
  crc_byte_0 v =
      let more : leb 4 (u8 (h.per_state_data + 1)) ≡ false = ground (arith, v.bytes_received) in
      rw (more, on_crc)
        (record {
          awaits = Awaits.crc_1 (record {
            state = v.state;
            ids = v.ids;
            count = v.count;
            stored = v.stored;
            checksum = v.checksum;
            bytes_received = omega (arith, v.bytes_received);
            high = omega (arith, crc_shift h (low_bits (c >>> 24) 8) (omega arith), v.high);
            rest_is = refl;
          });
          fits = fits;
          pending = pending;
          quiet = quiet;
        })

  pub crc_byte_1 :
      InCrc f c 1 h rest
      → Underway f c (on_crc timebase h (low_bits (c >>> 16) 8) []).0 (drop 2 (big_endian32 c))
  unfolding on_crc
  crc_byte_1 v =
      let more : leb 4 (u8 (h.per_state_data + 1)) ≡ false = ground (arith, v.bytes_received) in
      rw (more, on_crc)
        (record {
          awaits = Awaits.crc_2 (record {
            state = v.state;
            ids = v.ids;
            count = v.count;
            stored = v.stored;
            checksum = v.checksum;
            bytes_received = omega (arith, v.bytes_received);
            high = omega (arith, crc_shift h (low_bits (c >>> 16) 8) (omega arith), v.high);
            rest_is = refl;
          });
          fits = fits;
          pending = pending;
          quiet = quiet;
        })

  pub crc_byte_2 :
      InCrc f c 2 h rest
      → Underway f c (on_crc timebase h (low_bits (c >>> 8) 8) []).0 (drop 3 (big_endian32 c))
  unfolding on_crc
  crc_byte_2 v =
      let more : leb 4 (u8 (h.per_state_data + 1)) ≡ false = ground (arith, v.bytes_received) in
      rw (more, on_crc)
        (record {
          awaits = Awaits.crc_3 (record {
            state = v.state;
            ids = v.ids;
            count = v.count;
            stored = v.stored;
            checksum = v.checksum;
            bytes_received = omega (arith, v.bytes_received);
            high = omega (arith, crc_shift h (low_bits (c >>> 8) 8) (omega arith), v.high);
            rest_is = refl;
          });
          fits = fits;
          pending = pending;
          quiet = quiet;
        })

  -- The last byte decides.
  pub crc_byte_3 :
      InCrc f c 3 h rest
      → Verdict
          ((frame_crc f == c) && admitted h.session_active f)
          f
          (on_crc timebase h (low_bits c 8) []).0
  unfolding on_crc end_of_crc
  crc_byte_3 v =
      rw (whole, on_crc)
        (elim (Bool-cases (frame_crc f == c)) [
          | inl e ↦
              rw (e, compared ∙ e, end_of_crc)
                (process_lem f (record h' { state = State.idle }) v.ids v.count v.stored timebase
                  refl)
          | inr e ↦
              rw (e, compared ∙ e, end_of_crc)
                (unfold reset_rx in record { received = refl; ready = refl; is_idle = refl })
        ])
    where
      h' : CommHandler
      h' = store_crc_byte h (low_bits c 8)

      whole : leb 4 (u8 (h.per_state_data + 1)) ≡ true
      whole = ground (arith, v.bytes_received)

      crc' : h'.active_request.crc ≡ c
      crc' = omega (arith, crc_shift h (low_bits c 8) (omega arith), v.high)

      compared : (h'.crc == h'.active_request.crc) ≡ (frame_crc f == c)
      compared = ap₂ ◌==◌ v.checksum crc'
