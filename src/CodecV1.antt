-- ===== src/CodecV1.antt =====
-- Parts of lib/src/protocol/scrutiny_codec_v1_0.cpp and its header: the parsers of requests that access
-- memory, and the encoders of their responses. A pointer has 8 bytes, a char 8 bits.
pub mod CommControl
pub mod Configure
pub mod ReadMemory
pub mod WriteMemory
pub mod Lengths
pub mod Traverse
use scrutiny_embedded.Base.{ℕ, Bool, false, List, []}
use scrutiny_embedded.Protocol.{Response}

-- `sizeof(void *)`
abbrev pub addr_size : ℕ
addr_size = 8

-- `source_data` and `mask` are the bytes from the pointer on.
pub record MemoryBlock8Bits : Type 0 where
  pub start_address : ℕ
  pub length : ℕ
  pub source_data : List ℕ
  pub mask : List ℕ

-- A block that has not been written yet.
abbrev pub new_block : MemoryBlock8Bits
new_block = record { start_address = 0; length = 0; source_data = []; mask = [] }

-- `ResponseEncoderBase`; its buffer is the response's payload.
pub record ResponseEncoder : Type 0 where
  pub response : Response
  pub cursor : ℕ
  pub size_limit : ℕ
  pub overflow : Bool

unfoldable pub init : Response → ℕ → ResponseEncoder
init response max_size = record {
  response = response;
  cursor = 0;
  size_limit = max_size;
  overflow = false;
}
