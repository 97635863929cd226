-- ===== src/Main/Memory.antt =====
-- The requests that read and write memory: their cases of `MainHandler::process_memory_control`. The
-- memory is a function from addresses to bytes, apart from the handler's own buffers.
pub mod Writing
mod Tests
pub mod Reading
use scrutiny_embedded.Base.{
  ℕ, zero, suc, Bool, true, false, not, List, [], ◌∷◌, ◌+◌, ◌-◌, ◌%◌, ◌^◌, ltb, ◌==◌, if◌then◌else◌,
  u8, take, bit_and, bit_or, Option, none, some,
}
use scrutiny_embedded.Protocol.{Request, Response}
use scrutiny_embedded.Protocol.ResponseCode.{ResponseCode}
use scrutiny_embedded.CodecV1
use scrutiny_embedded.CodecV1.{MemoryBlock8Bits, ResponseEncoder, new_block}
use scrutiny_embedded.CodecV1.ReadMemory
use scrutiny_embedded.CodecV1.ReadMemory.{ReadMemoryBlocksRequestParser}
use scrutiny_embedded.CodecV1.WriteMemory
use scrutiny_embedded.CodecV1.WriteMemory.{WriteMemoryBlocksRequestParser}
use scrutiny_embedded.Main.{touches_forbidden_region, touches_readonly_region}
use scrutiny_embedded.Main.Config.{Config}

abbrev pub Memory : Type 0
Memory = ℕ → ℕ

abbrev pub update : Memory → ℕ → ℕ → Memory
update memory addr value a = if a == addr then value else memory a

-- A copy of bytes to an address.
unfoldable pub write_bytes : Memory → ℕ → List ℕ → Memory
write_bytes memory addr [] = memory
write_bytes memory addr (b ∷ bs) = write_bytes (update memory addr b) (addr + 1) bs

-- `temp |= (data & mask); temp &= (data | ~mask)`
unfoldable pub masked_byte : ℕ → ℕ → ℕ → ℕ
masked_byte temp data' mask = bit_and (bit_or temp (bit_and data' mask)) (bit_or data' (255 - mask))

-- The loop over the bytes of a masked block.
unfoldable pub write_masked : Memory → ℕ → List ℕ → List ℕ → Memory
write_masked memory addr (b ∷ bs) (k ∷ ks) =
    write_masked (update memory addr (masked_byte (memory addr) b k)) (addr + 1) bs ks
write_masked memory addr _ _ = memory

unfoldable pub write_block : Bool → Memory → MemoryBlock8Bits → Memory
unfolding write_bytes write_masked
write_block masked memory block =
    let source = take block.length block.source_data in
    if not masked
    then write_bytes memory block.start_address source
    else write_masked memory block.start_address source (take block.length block.mask)

module _ (config : Config) where
  unfoldable pub forbids : MemoryBlock8Bits → Bool
  unfolding touches_forbidden_region
  forbids block =
      touches_forbidden_region config.is_forbidden_address_range_set config.forbidden_ranges
        block.start_address block.length

  unfoldable pub protects : MemoryBlock8Bits → Bool
  unfolding touches_readonly_region
  protects block =
      touches_readonly_region config.is_readonly_address_range_set config.readonly_ranges
        block.start_address block.length

  -- The loop over the blocks to read, with fuel for each round; `none` means that the fuel ran out.
  unfoldable pub read_blocks :
      Memory
      → ℕ
      → ReadMemoryBlocksRequestParser
      → MemoryBlock8Bits
      → ResponseEncoder
      → Option (ResponseEncoder × ResponseCode)
  read_blocks memory zero p block e = none
  read_blocks memory (suc fuel) p block e =
      let (p', block') = ReadMemory.next p block in
      let e' = ReadMemory.write memory e block' in
      let rest = read_blocks memory fuel p' block' e' in
      if p.finished
      then some (e, ResponseCode.ok)
      else if p'.invalid
      then some (e, ResponseCode.invalid_request)
      else if forbids block'
      then some (e, ResponseCode.forbidden)
      else if e'.overflow
      then some (e', ResponseCode.overflow)
      else rest

  -- Each round but the last reads a byte of the request at least.
  unfoldable pub process_read :
      Memory → Request → List ℕ → Response → ℕ → Option (Response × ResponseCode)
  process_read memory request buffer response tx_buffer_size =
      let p = ReadMemory.init request buffer in
      let e = CodecV1.init response tx_buffer_size in
      if p.invalid
      then some (response, ResponseCode.invalid_request)
      else if ltb tx_buffer_size p.required_tx_buffer_size
      then some (response, ResponseCode.overflow)
      else elim (read_blocks memory (suc (suc request.data_length)) p new_block e) [
        | none ↦ none
        | some r ↦ some (r.0.response, r.1)
      ]

  -- The loop over the blocks to write. The overflow of the encoder is not looked at.
  unfoldable pub write_blocks :
      Bool
      → Memory
      → ℕ
      → WriteMemoryBlocksRequestParser
      → MemoryBlock8Bits
      → ResponseEncoder
      → Option (Memory × ResponseEncoder × ResponseCode)
  write_blocks masked memory zero p block e = none
  write_blocks masked memory (suc fuel) p block e =
      let (p', block') = WriteMemory.next p block in
      let rest =
        write_blocks masked (write_block masked memory block') fuel p' block'
          (WriteMemory.write e block') in
      if p.finished
      then some (memory, e, ResponseCode.ok)
      else if p'.invalid
      then some (memory, e, ResponseCode.invalid_request)
      else if forbids block'
      then some (memory, e, ResponseCode.forbidden)
      else if protects block'
      then some (memory, e, ResponseCode.forbidden)
      else rest

  unfoldable pub process_write :
      Bool → Memory → Request → List ℕ → Response → ℕ → Option (Memory × Response × ResponseCode)
  process_write masked memory request buffer response tx_buffer_size =
      let p = WriteMemory.init request buffer masked in
      let e = CodecV1.init response tx_buffer_size in
      if not config.memory_write_enable
      then some (memory, response, ResponseCode.forbidden)
      else if p.invalid
      then some (memory, response, ResponseCode.invalid_request)
      else if ltb tx_buffer_size p.required_tx_buffer_size
      then some (memory, response, ResponseCode.overflow)
      else elim (write_blocks masked memory (suc (suc request.data_length)) p new_block e) [
        | none ↦ none
        | some r ↦ some (r.0, r.1.response, r.2)
      ]
