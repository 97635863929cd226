-- ===== src/Comm/Frame/Awaits.antt =====
-- How far into a frame the handler is.
use scrutiny_embedded.Base.{
  ℕ, false, List, ◌++◌, ◌-◌, ◌*◌, ◌/◌, ◌%◌, ◌^◌, ◌<◌, ◌≡◌, length, take, drop, ◌>>>◌, low_bits,
  big_endian32,
}
use scrutiny_embedded.Tools.Crc.{crc32}
use scrutiny_embedded.Comm.State.{CommHandler, RxFsmState, is_transmitting}
use scrutiny_embedded.Comm.Frame.{Frame, header, frame_crc, wire, Fits}

-- The identifiers have been read.
abbrev pub Identified : Frame → CommHandler → Type 0
Identified f h =
    (h.active_request.command_id ≡ f.command) × (h.active_request.subfunction_id ≡ f.subfunction)

pub record InPayload (f : Frame) (c : ℕ) (h : CommHandler) (rest : List ℕ) : Type 0 where
  pub state : h.rx_state ≡ RxFsmState.wait_for_data
  pub ids : Identified f h
  pub count : h.active_request.data_length ≡ length f.payload
  pub done : List ℕ
  pub more : List ℕ
  pub split : f.payload ≡ done ++ more
  pub left : 0 < length more
  pub bytes_received : h.per_state_data ≡ length done
  pub stored : take (length done) h.rx_buffer ≡ done
  pub checksum : h.crc ≡ crc32 (header f ++ done) 0
  pub rest_is : rest ≡ more ++ big_endian32 c

-- `n` bytes of the checksum have been read.
pub record InCrc (f : Frame) (c : ℕ) (n : ℕ) (h : CommHandler) (rest : List ℕ) : Type 0 where
  pub state : h.rx_state ≡ RxFsmState.wait_for_crc
  pub ids : Identified f h
  pub count : h.active_request.data_length ≡ length f.payload
  pub stored : take (length f.payload) h.rx_buffer ≡ f.payload
  pub checksum : h.crc ≡ frame_crc f
  pub bytes_received : h.per_state_data ≡ n
  pub high : h.active_request.crc % 2 ^ (8 * n) ≡ c / 2 ^ (32 - 8 * n)
  pub rest_is : rest ≡ drop n (big_endian32 c)

pub data Awaits (f : Frame) (c : ℕ) (h : CommHandler) (rest : List ℕ) : Type 0 where
  command : h.rx_state ≡ RxFsmState.wait_for_command → rest ≡ wire f c → Awaits f c h rest
  subfunction :
      h.rx_state ≡ RxFsmState.wait_for_subfunction
      → h.active_request.command_id ≡ f.command
      → h.crc ≡ crc32 (take 1 (header f)) 0
      → rest ≡ drop 1 (wire f c)
      → Awaits f c h rest
  length_high :
      h.rx_state ≡ RxFsmState.wait_for_length
      → Identified f h
      → h.per_state_data ≡ 0
      → h.crc ≡ crc32 (take 2 (header f)) 0
      → rest ≡ drop 2 (wire f c)
      → Awaits f c h rest
  length_low :
      h.rx_state ≡ RxFsmState.wait_for_length
      → Identified f h
      → h.per_state_data ≡ 1
      → h.active_request.data_length ≡ low_bits (length f.payload >>> 8) 8 * 2 ^ 8
      → h.crc ≡ crc32 (take 3 (header f)) 0
      → rest ≡ drop 3 (wire f c)
      → Awaits f c h rest
  payload : InPayload f c h rest → Awaits f c h rest
  crc_0 : InCrc f c 0 h rest → Awaits f c h rest
  crc_1 : InCrc f c 1 h rest → Awaits f c h rest
  crc_2 : InCrc f c 2 h rest → Awaits f c h rest
  crc_3 : InCrc f c 3 h rest → Awaits f c h rest

-- A frame is on its way: its rest is what the handler waits for.
pub record Underway (f : Frame) (c : ℕ) (h : CommHandler) (rest : List ℕ) : Type 0 where
  pub awaits : Awaits f c h rest
  pub fits : Fits f h
  pub pending : h.request_received ≡ false
  pub quiet : is_transmitting h.state ≡ false
