-- ===== src/Main/Memory/Writing.antt =====
-- A request that writes and the bytes of the protected memory.
use scrutiny_embedded.Base.{
  ℕ, zero, suc, Bool, true, false, List, [], ◌∷◌, ◌+◌, ◌^◌, ◌≤◌, ◌<◌, ◌≡◌, ◌⊎◌, ◌∙◌, inl, inr, refl,
  arith, ltb, take, length, length-take, Bool-cases, some,
}
use scrutiny_embedded.Protocol.{Request, Response}
use scrutiny_embedded.Protocol.ResponseCode.{ResponseCode}
use scrutiny_embedded.CodecV1.Lengths.{write-Advances}
use scrutiny_embedded.CodecV1
use scrutiny_embedded.CodecV1.{MemoryBlock8Bits, ResponseEncoder, new_block, addr_size}
use scrutiny_embedded.CodecV1.Traverse.{write_traverse-same}
use scrutiny_embedded.CodecV1.WriteMemory
use scrutiny_embedded.CodecV1.WriteMemory.{WriteMemoryBlocksRequestParser}
use scrutiny_embedded.Main.Regions.{
  IsCovered, IsBelowTop, InBlock, touches_region-misses, touches_readonly-misses,
}
use scrutiny_embedded.Main.Config.{Config}
use scrutiny_embedded.Main.Memory.{
  Memory, update, write_bytes, write_masked, write_block, forbids, protects, write_blocks,
  process_write, masked_byte,
}

Outside : ℕ → ℕ → ℕ → Type 0
Outside addr start n = (addr < start) ⊎ (start + n ≤ addr)

write_bytes-Outside :
    (bytes : List ℕ) (memory : Memory) (start addr : ℕ)
    → Outside addr start (length bytes)
    → write_bytes memory start bytes addr ≡ memory addr
unfolding write_bytes Outside
write_bytes-Outside [] memory start addr out = refl
write_bytes-Outside (b ∷ bs) memory start addr (inl out) =
    ground
      (arith, write_bytes-Outside bs (update memory start b) (start + 1) addr (inl (omega arith)))
write_bytes-Outside (b ∷ bs) memory start addr (inr out) =
    ground
      (arith, write_bytes-Outside bs (update memory start b) (start + 1) addr (inr (omega arith)))

write_masked-Outside :
    (bytes masks : List ℕ) (memory : Memory) (start addr : ℕ)
    → Outside addr start (length bytes)
    → write_masked memory start bytes masks addr ≡ memory addr
unfolding write_masked Outside
write_masked-Outside [] masks memory start addr out = refl
write_masked-Outside (b ∷ bs) [] memory start addr out = refl
write_masked-Outside (b ∷ bs) (k ∷ ks) memory start addr (inl out) = ground (
  arith,
  write_masked-Outside bs ks (update memory start (masked_byte (memory start) b k)) (start + 1) addr
      (inl (omega arith)),
)
write_masked-Outside (b ∷ bs) (k ∷ ks) memory start addr (inr out) = ground (
  arith,
  write_masked-Outside bs ks (update memory start (masked_byte (memory start) b k)) (start + 1) addr
      (inr (omega arith)),
)

Outside-take :
    (addr start n : ℕ) (bytes : List ℕ)
    → (InBlock addr start n → ⊥)
    → Outside addr start (length (take n bytes))
unfolding Outside
Outside-take addr start n bytes out = elim (Bool-cases (ltb addr start)) [
  | inl before ↦ inl (ground (arith, before))
  | inr behind ↦ elim (Bool-cases (ltb addr (start + n))) [
    | inl below ↦
        absurd (out (record { from = ground (arith, behind); below = ground (arith, below) }))
    | inr above ↦ inr (ground (arith, above, length-take n bytes))
  ]
]

-- A block that does not hold an address leaves it.
pub write_block-InBlock :
    (masked : Bool) (memory : Memory) (block : MemoryBlock8Bits) (addr : ℕ)
    → (InBlock addr block.start_address block.length → ⊥)
    → write_block masked memory block addr ≡ memory addr
unfolding write_block
write_block-InBlock false memory block addr out =
    write_bytes-Outside (take block.length block.source_data) memory block.start_address addr
      (Outside-take addr block.start_address block.length block.source_data out)
write_block-InBlock true memory block addr out =
    write_masked-Outside (take block.length block.source_data) (take block.length block.mask) memory
      block.start_address addr
      (Outside-take addr block.start_address block.length block.source_data out)

-- An address that the configuration forbids to write.
pub data IsProtected (config : Config) (addr : ℕ) : Type 0 where
  forbidden :
      config.is_forbidden_address_range_set ≡ true
      → IsCovered addr config.forbidden_ranges
      → IsProtected config addr
  readonly :
      config.is_readonly_address_range_set ≡ true
      → IsCovered addr config.readonly_ranges
      → IsProtected config addr

module _ (config : Config) (addr : ℕ) (forbidden_top : IsBelowTop config.forbidden_ranges)
    (readonly_top : IsBelowTop config.readonly_ranges) (covered : IsProtected config addr) where
  InBlock-refused :
      (block : MemoryBlock8Bits)
      → block.length < 2 ^ 16
      → forbids config block ≡ false
      → protects config block ≡ false
      → InBlock addr block.start_address block.length
      → ⊥
  unfolding forbids protects
  InBlock-refused block small not_forbidden not_readonly inside = elim covered [
    | IsProtected.forbidden is_set c ↦
        touches_region-misses config.is_forbidden_address_range_set config.forbidden_ranges
          block.start_address block.length addr forbidden_top small not_forbidden inside is_set c
    | IsProtected.readonly is_set c ↦
        touches_readonly-misses config.is_readonly_address_range_set config.readonly_ranges
          block.start_address block.length addr readonly_top small not_readonly inside is_set c
  ]

  write_blocks_keeps :
      (masked : Bool) (fuel : ℕ) (memory : Memory) (p : WriteMemoryBlocksRequestParser)
      (block : MemoryBlock8Bits) (e : ResponseEncoder)
      → p.size_limit < 2 ^ 16
      → p.bytes_read ≤ p.size_limit
      → p.size_limit + 1 < fuel + p.bytes_read
      → (r : Memory × ResponseEncoder × ResponseCode) × (write_blocks config masked memory fuel p
            block e
          ≡ some r)
        × (r.0 addr ≡ memory addr)
  unfolding write_blocks
  write_blocks_keeps masked zero memory p block e small within enough = absurd (omega arith)
  write_blocks_keeps masked (suc fuel) memory p block e small within enough =
      let p' = (WriteMemory.next p block).0 in
      let block' = (WriteMemory.next p block).1 in
      elim (Bool-cases p.finished) [
        | inl done ↦ ((memory, e, ResponseCode.ok), ground (arith, done), refl)
        | inr going ↦ elim (Bool-cases (WriteMemory.next p block).0.invalid) [
          | inl bad ↦ ((memory, e, ResponseCode.invalid_request), ground (arith, going, bad), refl)
          | inr valid ↦ elim (Bool-cases (forbids config (WriteMemory.next p block).1)) [
            | inl f ↦ ((memory, e, ResponseCode.forbidden), ground (arith, going, valid, f), refl)
            | inr not_f ↦ elim (Bool-cases (protects config (WriteMemory.next p block).1)) [
              | inl r ↦ (
                (memory, e, ResponseCode.forbidden),
                ground (arith, going, valid, not_f, r),
                refl,
              )
              | inr not_r ↦
                  let moved = write-Advances p block small within going valid in
                  let forward = moved.forward in
                  let same = moved.same in
                  let end = moved.within in
                  let (r, ran, kept) =
                    write_blocks_keeps masked fuel (write_block masked memory block') p' block'
                      (WriteMemory.write e block') (omega arith) (omega arith) (omega arith) in
                  (
                    r,
                    ground (arith, going, valid, not_f, not_r, ran),
                    kept
                        ∙ write_block-InBlock masked memory block' addr
                            (InBlock-refused block' moved.small not_f not_r),
                  )
            ]
          ]
        ]
      ]

-- A parser that is initialised is at the start of its request.
init_start :
    (request : Request) (buffer : List ℕ) (masked : Bool)
    → ((WriteMemory.init request buffer masked).size_limit ≡ request.data_length)
      × ((WriteMemory.init request buffer masked).bytes_read ≡ 0)
unfolding WriteMemory.init
init_start request buffer masked = (write_traverse-same (suc request.data_length) _ new_block, refl)

-- Whatever a request to write asks for, masked or not, serving it ends with a code, and a byte that stands
-- in a forbidden or a read-only region is after it what it was before, where the regions end 2^16 bytes
-- before the end of the address space and the request's length has 16 bits.
pub process_write_lem :
    (config : Config) (masked : Bool) (memory : Memory) (request : Request) (buffer : List ℕ)
    (response : Response) (tx_buffer_size addr : ℕ)
    → IsBelowTop config.forbidden_ranges
    → IsBelowTop config.readonly_ranges
    → IsProtected config addr
    → request.data_length < 2 ^ 16
    → (r : Memory × Response × ResponseCode) × (process_write config masked memory request buffer
          response tx_buffer_size
        ≡ some r)
      × (r.0 addr ≡ memory addr)
unfolding process_write
process_write_lem config masked memory request buffer response tx_buffer_size addr top top' covered
      small =
    let p = WriteMemory.init request buffer masked in
    let e = CodecV1.init response tx_buffer_size in
    let start = init_start request buffer masked in
    let size = start.0 in
    let at = start.1 in
    elim (Bool-cases config.memory_write_enable) [
      | inr off ↦ ((memory, response, ResponseCode.forbidden), ground (arith, off), refl)
      | inl on ↦ elim (Bool-cases (WriteMemory.init request buffer masked).invalid) [
        | inl bad ↦
            ((memory, response, ResponseCode.invalid_request), ground (arith, on, bad), refl)
        | inr valid ↦
            elim (Bool-cases (
              ltb tx_buffer_size
                (WriteMemory.init request buffer masked).required_tx_buffer_size)) [
                  | inl full ↦ (
                    (memory, response, ResponseCode.overflow),
                    ground (arith, on, valid, full),
                    refl,
                  )
                  | inr fits ↦
                      let (r, ran, kept) =
                        write_blocks_keeps config addr top top' covered masked
                          (suc (suc request.data_length)) memory p new_block e (omega arith)
                          (omega arith) (omega arith) in
                      ((r.0, r.1.response, r.2), ground (arith, on, valid, fits, ran), kept)
                ]
      ]
    ]
