-- ===== src/CodecV1/WriteMemory.antt =====
-- `WriteMemoryBlocksRequestParser` and `WriteMemoryBlocksResponseEncoder`.
use scrutiny_embedded.Base.{
  ℕ, zero, suc, Bool, true, false, ◌||◌, ◌&&◌, List, [], ◌++◌, ◌+◌, ◌-◌, ltb, ◌==◌, if◌then◌else◌,
  u16, sub16, drop, ◌>>>◌,
}
use scrutiny_embedded.Protocol.{Request}
use scrutiny_embedded.Codecs.{encode_16_bits_big_endian_8bits, decode_16_bits_big_endian_8bits}
use scrutiny_embedded.Codecs.Address.{
  encode_address_big_endian_8bits, decode_address_big_endian_8bits,
}
use scrutiny_embedded.Comm.Receive.{write_at}
use scrutiny_embedded.CodecV1.{addr_size, MemoryBlock8Bits, new_block, ResponseEncoder}

pub record WriteMemoryBlocksRequestParser : Type 0 where
  pub buffer : List ℕ
  pub bytes_read : ℕ
  pub size_limit : ℕ
  pub required_tx_buffer_size : ℕ
  pub finished : Bool
  pub invalid : Bool
  pub masked_write : Bool

-- The end of `next`, behind a length that fits: `start` is where the data starts.
unfoldable pub next_data :
    WriteMemoryBlocksRequestParser
    → MemoryBlock8Bits
    → (addr length_8bits start : ℕ) → WriteMemoryBlocksRequestParser × MemoryBlock8Bits
next_data p block addr length_8bits start =
    let behind = u16 (start + length_8bits) in
    let behind_mask = u16 (behind + length_8bits) in
    let bytes_read = if p.masked_write then behind_mask else behind in
    let block' = record block { start_address = addr; source_data = drop start p.buffer } in
    if ltb p.size_limit behind
    then (record p { bytes_read = behind; invalid = true }, block')
    else (
      record p { bytes_read = bytes_read; finished = bytes_read == p.size_limit },
      record block' {
        mask = if p.masked_write then drop behind p.buffer else [];
        length = length_8bits;
      },
    )

unfoldable pub next :
    WriteMemoryBlocksRequestParser
    → MemoryBlock8Bits
    → WriteMemoryBlocksRequestParser × MemoryBlock8Bits
unfolding next_data
next p block =
    let addr = decode_address_big_endian_8bits addr_size (drop p.bytes_read p.buffer) in
    let at_length = u16 (p.bytes_read + addr_size) in
    let length_8bits = decode_16_bits_big_endian_8bits (drop at_length p.buffer) in
    let start = u16 (at_length + 2) in
    if p.finished || p.invalid
    then (p, block)
    else if ltb (sub16 p.size_limit p.bytes_read) (addr_size + 2)
    then (record p { finished = true; invalid = true }, block)
    else if ltb (sub16 p.size_limit start) length_8bits
        || (p.masked_write && ltb (u16 ((p.size_limit - start) >>> 1)) length_8bits)
    then (record p { bytes_read = start; invalid = true; finished = true }, block)
    else next_data p block addr length_8bits start

unfoldable pub reset : WriteMemoryBlocksRequestParser → WriteMemoryBlocksRequestParser
reset p = record p {
  bytes_read = 0;
  invalid = false;
  finished = false;
  required_tx_buffer_size = 0;
}

-- The loop of `init`, with fuel for each call of `next`.
unfoldable pub traverse :
    ℕ → WriteMemoryBlocksRequestParser → MemoryBlock8Bits → WriteMemoryBlocksRequestParser
traverse zero p block = p
traverse (suc fuel) p block =
    let (p', block') = next p block in
    let required = u16 (p'.required_tx_buffer_size + addr_size + 2) in
    let rest = traverse fuel (record p' { required_tx_buffer_size = required }) block' in
    if p'.invalid || p'.finished then p' else rest

-- Each call but the last reads a byte at least.
unfoldable pub init : Request → List ℕ → Bool → WriteMemoryBlocksRequestParser
unfolding reset traverse
init request buffer masked_write =
    let p : WriteMemoryBlocksRequestParser = record {
      buffer = buffer;
      bytes_read = 0;
      size_limit = request.data_length;
      required_tx_buffer_size = 0;
      finished = false;
      invalid = false;
      masked_write = masked_write;
    } in
    let p' = traverse (suc request.data_length) (reset p) new_block in
    record p' { bytes_read = 0; finished = false }

-- `WriteMemoryBlocksResponseEncoder::write`.
unfoldable pub write : ResponseEncoder → MemoryBlock8Bits → ResponseEncoder
write e block =
    let r = e.response in
    let cursor = u16 (e.cursor + addr_size + 2) in
    if ltb (sub16 e.size_limit e.cursor) (addr_size + 2)
    then record e { overflow = true }
    else record e {
      cursor = cursor;
      response = record r {
        payload = write_at r.payload e.cursor (
            encode_address_big_endian_8bits addr_size block.start_address
            ++ encode_16_bits_big_endian_8bits block.length);
        data_length = cursor;
      };
    }
