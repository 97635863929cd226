-- ===== src/CodecV1/ReadMemory.antt =====
-- `ReadMemoryBlocksRequestParser` and `ReadMemoryBlocksResponseEncoder`.
use scrutiny_embedded.Base.{
  ℕ, zero, suc, Bool, true, false, ◌||◌, List, [], ◌∷◌, ◌++◌, ◌+◌, ◌-◌, ltb, ◌==◌, if◌then◌else◌,
  u16, sub16, drop,
}
use scrutiny_embedded.Protocol.{Request, maximum_tx_buffer_size}
use scrutiny_embedded.Codecs.{encode_16_bits_big_endian_8bits, decode_16_bits_big_endian_8bits}
use scrutiny_embedded.Codecs.Address.{
  encode_address_big_endian_8bits, decode_address_big_endian_8bits,
}
use scrutiny_embedded.Comm.Receive.{write_at}
use scrutiny_embedded.CodecV1.{addr_size, MemoryBlock8Bits, new_block, ResponseEncoder}

pub record ReadMemoryBlocksRequestParser : Type 0 where
  pub buffer : List ℕ
  pub bytes_read : ℕ
  pub request_datasize : ℕ
  pub required_tx_buffer_size : ℕ
  pub finished : Bool
  pub invalid : Bool

-- The block is the one that the caller points to.
unfoldable pub next :
    ReadMemoryBlocksRequestParser
    → MemoryBlock8Bits
    → ReadMemoryBlocksRequestParser × MemoryBlock8Bits
next p block =
    let addr = decode_address_big_endian_8bits addr_size (drop p.bytes_read p.buffer) in
    let at_length = u16 (p.bytes_read + addr_size) in
    let length_8bits = decode_16_bits_big_endian_8bits (drop at_length p.buffer) in
    let behind = u16 (at_length + 2) in
    if p.finished || p.invalid
    then (p, block)
    else if ltb (sub16 p.request_datasize p.bytes_read) (addr_size + 2)
    then (record p { finished = true; invalid = true }, block)
    else if ltb (sub16 maximum_tx_buffer_size p.required_tx_buffer_size)
        (addr_size + 2 + length_8bits)
    then (record p { bytes_read = at_length; invalid = true; finished = true }, block)
    else (
      record p { bytes_read = behind; finished = behind == p.request_datasize },
      record block { start_address = addr; length = length_8bits },
    )

unfoldable pub reset : ReadMemoryBlocksRequestParser → ReadMemoryBlocksRequestParser
reset p = record p {
  bytes_read = 0;
  invalid = false;
  finished = false;
  required_tx_buffer_size = 0;
}

-- The loop of `init`, with fuel for each call of `next`.
unfoldable pub traverse :
    ℕ → ReadMemoryBlocksRequestParser → MemoryBlock8Bits → ReadMemoryBlocksRequestParser
traverse zero p block = p
traverse (suc fuel) p block =
    let (p', block') = next p block in
    let required = u16 (p'.required_tx_buffer_size + addr_size + 2 + block'.length) in
    let rest = traverse fuel (record p' { required_tx_buffer_size = required }) block' in
    if p'.invalid || p'.finished then p' else rest

-- Each call but the last reads a byte at least.
unfoldable pub init : Request → List ℕ → ReadMemoryBlocksRequestParser
unfolding reset traverse
init request buffer =
    let p : ReadMemoryBlocksRequestParser = record {
      buffer = buffer;
      bytes_read = 0;
      request_datasize = request.data_length;
      required_tx_buffer_size = 0;
      finished = false;
      invalid = false;
    } in
    let p' = traverse (suc request.data_length) (reset p) new_block in
    record p' { bytes_read = 0; finished = false }

-- What a copy of `n` bytes from an address reads.
unfoldable pub read_bytes : (ℕ → ℕ) → ℕ → ℕ → List ℕ
read_bytes memory start zero = []
read_bytes memory start (suc n) = memory start ∷ read_bytes memory (start + 1) n

-- `ReadMemoryBlocksResponseEncoder::write`, on the memory that the block stands in.
unfoldable pub write : (ℕ → ℕ) → ResponseEncoder → MemoryBlock8Bits → ResponseEncoder
write memory e block =
    let r = e.response in
    let cursor = u16 (e.cursor + addr_size + 2 + block.length) in
    if ltb (maximum_tx_buffer_size - addr_size - 2) block.length
    then record e { overflow = true }
    else if ltb (sub16 e.size_limit e.cursor) (addr_size + 2 + block.length)
    then record e { overflow = true }
    else record e {
      cursor = cursor;
      response = record r {
        payload = write_at r.payload e.cursor (
            encode_address_big_endian_8bits addr_size block.start_address
            ++ encode_16_bits_big_endian_8bits block.length
            ++ read_bytes memory block.start_address block.length);
        data_length = cursor;
      };
    }
