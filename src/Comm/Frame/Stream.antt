-- ===== src/Comm/Frame/Stream.antt =====
-- A frame that comes in any pieces, at any times that keep the reception timeout.
use scrutiny_embedded.Base.{
  ℕ, true, false, List, [], ◌∷◌, ◌++◌, ◌^◌, ◌<◌, ◌≡◌, length, refl, ◌∙◌, arith, Bool-cases, inl,
  inr, IsBytes, if◌then◌else◌,
}
use scrutiny_embedded.Timebase.{Timebase, has_expired}
use scrutiny_embedded.Comm.State.{
  CommHandler, State, RxFsmState, is_transmitting, is_idle, reset_rx,
}
use scrutiny_embedded.Comm.Receive.{
  dispatch, on_command, on_subfunction, on_length, end_of_length, on_data, store_data, on_crc,
  end_of_crc, process_active_request, before_receive, receive_data, receive_loop, rx_timeout,
}
use scrutiny_embedded.Comm.Valid.{IsValid}
use scrutiny_embedded.Comm.Run.{feed, run}
use scrutiny_embedded.Comm.Run.Loop.{receive_loop-Received, Received}
use scrutiny_embedded.Comm.Frame.{Frame, wire, Fits}
use scrutiny_embedded.Comm.Frame.Awaits.{Awaits, InPayload, InCrc, Underway}
use scrutiny_embedded.Comm.Frame.Accept.{SameSession}

module _ (f : Frame) (c : ℕ) (h : CommHandler) (rest : List ℕ) (stamp : ℕ) (state : State) where
  abbrev restamped : CommHandler
  restamped = record h { last_rx_timestamp = stamp; state = state }

  InCrc-restamped : (n : ℕ) → InCrc f c n h rest → InCrc f c n restamped rest
  InCrc-restamped n v = record {
    state = v.state;
    ids = v.ids;
    count = v.count;
    stored = v.stored;
    checksum = v.checksum;
    bytes_received = v.bytes_received;
    high = v.high;
    rest_is = v.rest_is;
  }

  InPayload-restamped : InPayload f c h rest → InPayload f c restamped rest
  InPayload-restamped v = record {
    state = v.state;
    ids = v.ids;
    count = v.count;
    done = v.done;
    more = v.more;
    split = v.split;
    left = v.left;
    bytes_received = v.bytes_received;
    stored = v.stored;
    checksum = v.checksum;
    rest_is = v.rest_is;
  }

  Awaits-restamped : Awaits f c h rest → Awaits f c restamped rest
  Awaits-restamped (Awaits.command s e) = Awaits.command s e
  Awaits-restamped (Awaits.subfunction s id crc e) = Awaits.subfunction s id crc e
  Awaits-restamped (Awaits.length_high s ids per crc e) = Awaits.length_high s ids per crc e
  Awaits-restamped (Awaits.length_low s ids per high crc e) = Awaits.length_low s ids per high crc e
  Awaits-restamped (Awaits.payload v) = Awaits.payload (InPayload-restamped v)
  Awaits-restamped (Awaits.crc_0 v) = Awaits.crc_0 (InCrc-restamped 0 v)
  Awaits-restamped (Awaits.crc_1 v) = Awaits.crc_1 (InCrc-restamped 1 v)
  Awaits-restamped (Awaits.crc_2 v) = Awaits.crc_2 (InCrc-restamped 2 v)
  Awaits-restamped (Awaits.crc_3 v) = Awaits.crc_3 (InCrc-restamped 3 v)

module _ (timebase : Timebase) where
  pub before_receive-IsValid : (h : CommHandler) → IsValid h → IsValid (before_receive timebase h)
  unfolding before_receive reset_rx
  before_receive-IsValid h v = ground arith

  -- What `receive_data` does with data, given that it is enabled and not transmitting.
  pub receive_data-run :
      (h : CommHandler) (b : ℕ) (bs : List ℕ)
      → IsValid h
      → h.enabled ≡ true
      → is_transmitting h.state ≡ false
      → IsBytes (b ∷ bs)
      → length (b ∷ bs) < 2 ^ 16
      → (receive_data timebase h (b ∷ bs) ≡ run timebase (before_receive timebase h) (b ∷ bs))
        × IsValid (receive_data timebase h (b ∷ bs))
  receive_data-run h b bs v on quiet bytes short = (enters ∙ loop.result, rw enters loop.valid)
    where
      enters :
          receive_data timebase h (b ∷ bs)
          ≡ (receive_loop timebase (length (b ∷ bs)) (before_receive timebase h) (b ∷ bs)).0
      enters = unfold receive_data in ground arith

      loop :
          Received timebase
            (before_receive timebase h)
            (b ∷ bs)
            (receive_loop timebase (length (b ∷ bs)) (before_receive timebase h) (b ∷ bs))
      loop =
          receive_loop-Received timebase (length (b ∷ bs)) (before_receive timebase h) (b ∷ bs)
            (omega arith) short bytes (before_receive-IsValid h v)

  on_crc_stamp :
      (h : CommHandler) (b : ℕ)
      → h.last_rx_timestamp ≡ timebase.time_100ns
      → (on_crc timebase h b []).0.last_rx_timestamp ≡ timebase.time_100ns
  unfolding on_crc end_of_crc process_active_request reset_rx
  on_crc_stamp h b e = ground arith

  dispatch_stamp :
      (s : RxFsmState) (h : CommHandler) (b : ℕ)
      → h.last_rx_timestamp ≡ timebase.time_100ns
      → (dispatch timebase s h b []).0.last_rx_timestamp ≡ timebase.time_100ns
  unfolding dispatch on_command on_subfunction on_length end_of_length on_data store_data
  dispatch_stamp RxFsmState.wait_for_command h b e = ground arith
  dispatch_stamp RxFsmState.wait_for_subfunction h b e = ground arith
  dispatch_stamp RxFsmState.wait_for_length h b e = ground arith
  dispatch_stamp RxFsmState.wait_for_data h b e = ground arith
  dispatch_stamp RxFsmState.wait_for_crc h b e = on_crc_stamp h b e
  dispatch_stamp RxFsmState.wait_for_process h b e = ground arith
  dispatch_stamp RxFsmState.error h b e = ground arith

  run_stamp :
      (h : CommHandler) (bs : List ℕ)
      → h.last_rx_timestamp ≡ timebase.time_100ns
      → (run timebase h bs).last_rx_timestamp ≡ timebase.time_100ns
  unfolding run feed
  run_stamp h [] e = e
  run_stamp h (b ∷ bs) e =
      ground (arith, run_stamp (feed timebase h b) bs (dispatch_stamp h.rx_state h b e))

  before_receive_stamp :
      (h : CommHandler) → (before_receive timebase h).last_rx_timestamp ≡ timebase.time_100ns
  unfolding before_receive
  before_receive_stamp h = ground arith

  -- The time of the last piece is kept.
  pub receive_data_stamp :
      (h : CommHandler) (bytes : List ℕ)
      → receive_data timebase h bytes ≡ run timebase (before_receive timebase h) bytes
      → (receive_data timebase h bytes).last_rx_timestamp ≡ timebase.time_100ns
  receive_data_stamp h bytes e =
      rw e (run_stamp (before_receive timebase h) bytes (before_receive_stamp h))

  pub before_receive-SameSession : (h : CommHandler) → SameSession h (before_receive timebase h)
  unfolding before_receive reset_rx
  before_receive-SameSession h = ground arith

  -- A frame that is on its way stays so, unless the timeout has passed.
  pub before_receive-Underway :
      (f : Frame) (c : ℕ) (h : CommHandler) (rest : List ℕ)
      → has_expired timebase h.last_rx_timestamp rx_timeout ≡ false
      → Underway f c h rest
      → Underway f c (before_receive timebase h) rest
  unfolding before_receive
  before_receive-Underway f c h rest e u =
      rw (e, before_receive)
        (record {
          awaits =
              Awaits-restamped f c h rest timebase.time_100ns
                (if is_idle h.state then State.receiving else h.state) u.awaits;
          fits = u.fits;
          pending = u.pending;
          quiet = ground (arith, u.quiet);
        })

  -- The handler before a frame: whatever the clock says, its reception starts.
  pub start-Underway :
      (f : Frame) (c : ℕ) (h : CommHandler)
      → h.rx_state ≡ RxFsmState.wait_for_command
      → Fits f h
      → h.request_received ≡ false
      → is_transmitting h.state ≡ false
      → Underway f c (before_receive timebase h) (wire f c)
  unfolding before_receive reset_rx
  start-Underway f c h s fits p q =
      elim (Bool-cases (has_expired timebase h.last_rx_timestamp rx_timeout)) [
        | inl e ↦
            rw (e, before_receive)
              (record {
                awaits = Awaits.command refl refl;
                fits = fits;
                pending = refl;
                quiet = refl;
              })
        | inr e ↦
            rw (e, before_receive)
              (record {
                awaits = Awaits.command s refl;
                fits = fits;
                pending = p;
                quiet = ground (arith, q);
              })
      ]

-- The pieces of a stream, each with the time of its arrival.
unfoldable pub receive_all : CommHandler → List (Timebase × List ℕ) → CommHandler
receive_all h [] = h
receive_all h ((t, bytes) ∷ rest) = receive_all (receive_data t h bytes) rest

unfoldable pub all_bytes : List (Timebase × List ℕ) → List ℕ
all_bytes [] = []
all_bytes ((t, bytes) ∷ rest) = bytes ++ all_bytes rest

-- No piece is empty or longer than a `uint16_t` counts, and none comes later than the timeout
-- after the one before it.
abbrev pub Timely : ℕ → List (Timebase × List ℕ) → Type 0
Timely last [] = Unit {0}
Timely last ((t, bytes) ∷ rest) =
    (0 < length bytes)
    × (length bytes < 2 ^ 16)
    × (has_expired t last rx_timeout ≡ false)
    × Timely t.time_100ns rest
