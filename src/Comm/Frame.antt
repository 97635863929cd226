-- ===== src/Comm/Frame.antt =====
-- The format of a request on the wire, and what the handler makes of one, described apart from the
-- code: command, subfunction, length, payload and checksum.
pub mod Awaits
pub mod Header
pub mod Data
pub mod Verdict
pub mod Accept
pub mod Stream
pub mod Delivery
use scrutiny_embedded.Base.{
  ℕ, Bool, true, false, ◌&&◌, ◌||◌, List, [], ◌∷◌, ◌++◌, ◌+◌, ◌-◌, ◌*◌, ◌/◌, ◌%◌, ◌^◌, ◌≤◌, ◌<◌,
  ◌≡◌, length, take, leb, ◌==◌, low_bits, ◌>>>◌, big_endian32, IsBytes, if◌then◌else◌,
}
use scrutiny_embedded.Tools.Crc.{crc32}
use scrutiny_embedded.Protocol.{Request}
use scrutiny_embedded.Protocol.CommandId
use scrutiny_embedded.Protocol.CommControl
use scrutiny_embedded.Comm.State.{CommHandler, State, RxFsmState}
use scrutiny_embedded.Comm.Receive.{same_bytes}

pub record Frame : Type 0 where
  pub command : ℕ
  pub subfunction : ℕ
  pub payload : List ℕ

abbrev pub header : Frame → List ℕ
header f =
    f.command
    ∷ f.subfunction
    ∷ low_bits (length f.payload >>> 8) 8
    ∷ low_bits (length f.payload) 8
    ∷ []

abbrev pub frame_crc : Frame → ℕ
frame_crc f = crc32 (header f ++ f.payload) 0

-- The bytes of a frame that ends in the checksum `c`.
abbrev pub wire : Frame → ℕ → List ℕ
wire f c = header f ++ (f.payload ++ big_endian32 c)

-- A request fits a handler: the highest bit of the command is clear, and the buffer holds the payload.
pub record FitsIn (f : Frame) (buffer_size : ℕ) (buffer : List ℕ) : Type 0 where
  pub command : f.command < 128
  pub subfunction : f.subfunction < 256
  pub payload : IsBytes f.payload
  pub room : length f.payload ≤ buffer_size
  pub storage : buffer_size ≤ length buffer
  pub word : buffer_size < 2 ^ 16

abbrev pub Fits : Frame → CommHandler → Type 0
Fits f h = FitsIn f h.rx_buffer_size h.rx_buffer

-- Without a session only a connection request or a discovery with its magic is let through.
unfoldable pub admitted : Bool → Frame → Bool
admitted active f =
    active
    || (f.command == CommandId.comm_control)
      && ((f.subfunction == CommControl.connect)
          || (f.subfunction == CommControl.discover)
            && leb 4 (length f.payload)
            && same_bytes CommControl.discover_magic (take 4 f.payload))

-- The request waits to be processed.
pub record Accepted (f : Frame) (h : CommHandler) : Type 0 where
  pub received : h.request_received ≡ true
  pub waiting : h.rx_state ≡ RxFsmState.wait_for_process
  pub command : h.active_request.command_id ≡ f.command
  pub subfunction : h.active_request.subfunction_id ≡ f.subfunction
  pub count : h.active_request.data_length ≡ length f.payload
  pub payload : take (length f.payload) h.rx_buffer ≡ f.payload
  pub is_idle : h.state ≡ State.idle

-- Nothing is left of it.
pub record Dropped (h : CommHandler) : Type 0 where
  pub received : h.request_received ≡ false
  pub ready : h.rx_state ≡ RxFsmState.wait_for_command
  pub is_idle : h.state ≡ State.idle

abbrev pub Verdict : Bool → Frame → CommHandler → Type 0
Verdict true f h = Accepted f h
Verdict false f h = Dropped h
