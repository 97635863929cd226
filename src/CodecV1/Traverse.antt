-- ===== src/CodecV1/Traverse.antt =====
-- The validation passes of the parsers of blocks end by their test, and keep the request's size.
use scrutiny_embedded.Base.{
  ℕ, zero, suc, true, false, ◌||◌, ◌+◌, ◌^◌, ◌≤◌, ◌<◌, ◌≡◌, inl, inr, refl, arith, u16, Bool-cases,
}
use scrutiny_embedded.CodecV1.{MemoryBlock8Bits, addr_size, new_block}
use scrutiny_embedded.CodecV1.ReadMemory
use scrutiny_embedded.CodecV1.ReadMemory.{ReadMemoryBlocksRequestParser}
use scrutiny_embedded.CodecV1.WriteMemory
use scrutiny_embedded.CodecV1.WriteMemory.{WriteMemoryBlocksRequestParser}
use scrutiny_embedded.CodecV1.Lengths.{read-Advances, write-Advances}

read-same :
    (p : ReadMemoryBlocksRequestParser) (block : MemoryBlock8Bits)
    → (ReadMemory.next p block).0.request_datasize ≡ p.request_datasize
unfolding ReadMemory.next
read-same p block = ground arith

write-same :
    (p : WriteMemoryBlocksRequestParser) (block : MemoryBlock8Bits)
    → (WriteMemory.next p block).0.size_limit ≡ p.size_limit
unfolding WriteMemory.next WriteMemory.next_data
write-same p block = ground arith

pub read_traverse-same :
    (fuel : ℕ) (p : ReadMemoryBlocksRequestParser) (block : MemoryBlock8Bits)
    → (ReadMemory.traverse fuel p block).request_datasize ≡ p.request_datasize
unfolding ReadMemory.traverse
read_traverse-same zero p block = refl
read_traverse-same (suc fuel) p block =
    let p' = (ReadMemory.next p block).0 in
    let block' = (ReadMemory.next p block).1 in
    let required = u16 (p'.required_tx_buffer_size + addr_size + 2 + block'.length) in
    ground (
      arith,
      read-same p block,
      read_traverse-same fuel (record p' { required_tx_buffer_size = required }) block',
    )

pub write_traverse-same :
    (fuel : ℕ) (p : WriteMemoryBlocksRequestParser) (block : MemoryBlock8Bits)
    → (WriteMemory.traverse fuel p block).size_limit ≡ p.size_limit
unfolding WriteMemory.traverse
write_traverse-same zero p block = refl
write_traverse-same (suc fuel) p block =
    let p' = (WriteMemory.next p block).0 in
    let block' = (WriteMemory.next p block).1 in
    let required = u16 (p'.required_tx_buffer_size + addr_size + 2) in
    ground (
      arith,
      write-same p block,
      write_traverse-same fuel (record p' { required_tx_buffer_size = required }) block',
    )

read_traverse_ends :
    (fuel : ℕ) (p : ReadMemoryBlocksRequestParser) (block : MemoryBlock8Bits)
    → p.request_datasize < 2 ^ 16
    → p.bytes_read ≤ p.request_datasize
    → p.finished ≡ false
    → p.request_datasize < fuel + p.bytes_read
    → let p' = ReadMemory.traverse fuel p block in (p'.invalid || p'.finished) ≡ true
unfolding ReadMemory.traverse
read_traverse_ends zero p block small within going enough = absurd (omega arith)
read_traverse_ends (suc fuel) p block small within going enough =
    let p' = (ReadMemory.next p block).0 in
    let block' = (ReadMemory.next p block).1 in
    elim (Bool-cases
      ((ReadMemory.next p block).0.invalid || (ReadMemory.next p block).0.finished)) [
        | inl stops ↦ ground (arith, stops)
        | inr more ↦
            let moved = read-Advances p block small within going (ground (arith, more)) in
            let forward = moved.forward in
            let same = moved.same in
            let end = moved.within in
            let required = u16 (p'.required_tx_buffer_size + addr_size + 2 + block'.length) in
            let rest =
              read_traverse_ends fuel (record p' { required_tx_buffer_size = required }) block'
                (omega arith) (omega arith) (ground (arith, more)) (omega arith) in
            ground (arith, more, rest)
      ]

write_traverse_ends :
    (fuel : ℕ) (p : WriteMemoryBlocksRequestParser) (block : MemoryBlock8Bits)
    → p.size_limit < 2 ^ 16
    → p.bytes_read ≤ p.size_limit
    → p.finished ≡ false
    → p.size_limit < fuel + p.bytes_read
    → let p' = WriteMemory.traverse fuel p block in (p'.invalid || p'.finished) ≡ true
unfolding WriteMemory.traverse
write_traverse_ends zero p block small within going enough = absurd (omega arith)
write_traverse_ends (suc fuel) p block small within going enough =
    let p' = (WriteMemory.next p block).0 in
    let block' = (WriteMemory.next p block).1 in
    elim (Bool-cases
      ((WriteMemory.next p block).0.invalid || (WriteMemory.next p block).0.finished)) [
        | inl stops ↦ ground (arith, stops)
        | inr more ↦
            let moved = write-Advances p block small within going (ground (arith, more)) in
            let forward = moved.forward in
            let same = moved.same in
            let end = moved.within in
            let required = u16 (p'.required_tx_buffer_size + addr_size + 2) in
            let rest =
              write_traverse_ends fuel (record p' { required_tx_buffer_size = required }) block'
                (omega arith) (omega arith) (ground (arith, more)) (omega arith) in
            ground (arith, more, rest)
      ]

-- The loops that validate a request to read or to write memory, with one unit of fuel more than the request
-- has bytes, end with a parser that is finished or invalid, where the request's length has 16 bits.
pub traverse_ends :
    (p : ReadMemoryBlocksRequestParser) (q : WriteMemoryBlocksRequestParser)
    → p.request_datasize < 2 ^ 16
    → q.size_limit < 2 ^ 16
    → (let p' = ReadMemory.traverse (suc p.request_datasize) (ReadMemory.reset p) new_block in
        (p'.invalid || p'.finished) ≡ true)
      × (let q' = WriteMemory.traverse (suc q.size_limit) (WriteMemory.reset q) new_block in
          (q'.invalid || q'.finished) ≡ true)
unfolding ReadMemory.reset WriteMemory.reset
traverse_ends p q small small' = (
  read_traverse_ends (suc p.request_datasize) (ReadMemory.reset p) new_block small (omega arith)
      refl (omega arith),
  write_traverse_ends (suc q.size_limit) (WriteMemory.reset q) new_block small' (omega arith) refl
      (omega arith),
)
