-- ===== src/CodecV1/Lengths.antt =====
-- How far a parser of blocks moves in its request, and the lengths that it reads.
use scrutiny_embedded.Base.{ℕ, false, List, [], ◌∷◌, ◌+◌, ◌^◌, ◌≤◌, ◌<◌, ◌≡◌, arith, drop, u16}
use scrutiny_embedded.Codecs.{decode_16_bits_big_endian_8bits}
use scrutiny_embedded.Codecs.Bytes.{decode_16_bits_big_endian_8bits_lem}
use scrutiny_embedded.CodecV1.{MemoryBlock8Bits, addr_size}
use scrutiny_embedded.CodecV1.ReadMemory
use scrutiny_embedded.CodecV1.ReadMemory.{ReadMemoryBlocksRequestParser}
use scrutiny_embedded.CodecV1.WriteMemory
use scrutiny_embedded.CodecV1.WriteMemory.{WriteMemoryBlocksRequestParser}

pub decode_16-lt : (bytes : List ℕ) → decode_16_bits_big_endian_8bits bytes < 2 ^ 16
unfolding decode_16_bits_big_endian_8bits
decode_16-lt [] = omega arith
decode_16-lt (b ∷ []) = omega arith
decode_16-lt (b0 ∷ b1 ∷ bs) = omega (arith, decode_16_bits_big_endian_8bits_lem b0 b1 bs)

-- What a call of `next` gives that finds a block.
pub record Advances (at limit at' limit' len : ℕ) : Type 0 where
  pub forward : at + 10 ≤ at'
  pub within : at' ≤ limit
  pub same : limit' ≡ limit
  pub small : len < 2 ^ 16

pub read-Advances :
    (p : ReadMemoryBlocksRequestParser) (block : MemoryBlock8Bits)
    → p.request_datasize < 2 ^ 16
    → p.bytes_read ≤ p.request_datasize
    → p.finished ≡ false
    → (ReadMemory.next p block).0.invalid ≡ false
    → Advances p.bytes_read p.request_datasize
        (ReadMemory.next p block).0.bytes_read
        (ReadMemory.next p block).0.request_datasize
        (ReadMemory.next p block).1.length
unfolding ReadMemory.next
read-Advances p block small within going valid = ground arith

pub write-Advances :
    (p : WriteMemoryBlocksRequestParser) (block : MemoryBlock8Bits)
    → p.size_limit < 2 ^ 16
    → p.bytes_read ≤ p.size_limit
    → p.finished ≡ false
    → (WriteMemory.next p block).0.invalid ≡ false
    → Advances p.bytes_read p.size_limit
        (WriteMemory.next p block).0.bytes_read
        (WriteMemory.next p block).0.size_limit
        (WriteMemory.next p block).1.length
unfolding WriteMemory.next WriteMemory.next_data
write-Advances p block small within going valid =
    ground (arith, decode_16-lt (drop (u16 (p.bytes_read + addr_size)) p.buffer))
