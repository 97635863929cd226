-- ===== src/Main/Memory/Reading.antt =====
-- What a request to read gives: the blocks of memory that it depends on, and its length.
use scrutiny_embedded.Base.{
  ℕ, zero, suc, true, false, List, ◌+◌, ◌^◌, ◌≤◌, ◌<◌, ◌≡◌, inl, inr, refl, arith, ltb, Bool-cases,
  Option, some,
}
use scrutiny_embedded.Protocol.{Request, Response}
use scrutiny_embedded.Protocol.ResponseCode.{ResponseCode}
use scrutiny_embedded.CodecV1
use scrutiny_embedded.CodecV1.{MemoryBlock8Bits, ResponseEncoder, new_block, addr_size}
use scrutiny_embedded.CodecV1.Lengths.{read-Advances}
use scrutiny_embedded.CodecV1.Traverse.{read_traverse-same}
use scrutiny_embedded.CodecV1.ReadMemory
use scrutiny_embedded.CodecV1.ReadMemory.{ReadMemoryBlocksRequestParser}
use scrutiny_embedded.Main.Regions.{IsCovered, IsBelowTop, InBlock, touches_region-misses}
use scrutiny_embedded.Main.Config.{Config}
use scrutiny_embedded.Main.Memory.{Memory, forbids, read_blocks, process_read}

-- Two memories hold the same bytes in a block.
SameIn : Memory → Memory → ℕ → ℕ → Type 0
SameIn memory memory' start n = (addr : ℕ) → InBlock addr start n → memory addr ≡ memory' addr

read_bytes-same :
    (memory memory' : Memory) (start n : ℕ)
    → SameIn memory memory' start n
    → ReadMemory.read_bytes memory start n ≡ ReadMemory.read_bytes memory' start n
unfolding ReadMemory.read_bytes SameIn
read_bytes-same memory memory' start zero same = refl
read_bytes-same memory memory' start (suc n) same =
    let first = same start (record { from = omega arith; below = omega arith }) in
    let rest = read_bytes-same memory memory' (start + 1) n (λ addr b.
      let f = b.from in
      let l = b.below in same addr (record { from = omega arith; below = omega arith })) in
    cc

write-same :
    (memory memory' : Memory) (e : ResponseEncoder) (block : MemoryBlock8Bits)
    → SameIn memory memory' block.start_address block.length
    → ReadMemory.write memory e block ≡ ReadMemory.write memory' e block
unfolding ReadMemory.write
write-same memory memory' e block same =
    rw (read_bytes-same memory memory' block.start_address block.length same)

-- The encoder has written no more than it may.
pub record InLimit (e : ResponseEncoder) : Type 0 where
  pub cursor : e.cursor ≤ e.size_limit
  pub data_length : e.response.data_length ≤ e.size_limit
  pub limit : e.size_limit < 2 ^ 16

pub write-InLimit :
    (memory : Memory) (e : ResponseEncoder) (block : MemoryBlock8Bits)
    → InLimit e
    → InLimit (ReadMemory.write memory e block)
unfolding ReadMemory.write
write-InLimit memory e block inv = ground arith

write-size_limit :
    (memory : Memory) (e : ResponseEncoder) (block : MemoryBlock8Bits)
    → (ReadMemory.write memory e block).size_limit ≡ e.size_limit
unfolding ReadMemory.write
write-size_limit memory e block = ground arith

-- A forbidden address is in one of the ranges that are set.
pub record IsForbidden (config : Config) (addr : ℕ) : Type 0 where
  pub is_set : config.is_forbidden_address_range_set ≡ true
  pub covered : IsCovered addr config.forbidden_ranges

-- Two memories that differ in forbidden addresses at most.
unfoldable pub AgreeOutside : Config → Memory → Memory → Type 0
AgreeOutside config memory memory' =
    (addr : ℕ) → (IsForbidden config addr → ⊥) → memory addr ≡ memory' addr

-- What both runs give.
record BothGive (config : Config) (size_limit : ℕ) (a b : Option (ResponseEncoder × ResponseCode))
    : Type 0 where
  encoder : ResponseEncoder
  code : ResponseCode
  left : a ≡ some (encoder, code)
  right : b ≡ some (encoder, code)
  written : encoder.response.data_length ≤ size_limit

module _ (config : Config) (top : IsBelowTop config.forbidden_ranges) (memory memory' : Memory)
    (agree : AgreeOutside config memory memory') where
  SameIn-allowed :
      (block : MemoryBlock8Bits)
      → block.length < 2 ^ 16
      → forbids config block ≡ false
      → SameIn memory memory' block.start_address block.length
  unfolding forbids SameIn AgreeOutside
  SameIn-allowed block small allowed addr inside = agree addr λ f.
      touches_region-misses config.is_forbidden_address_range_set config.forbidden_ranges
        block.start_address block.length addr top small allowed inside f.is_set f.covered

  read_blocks-same :
      (fuel : ℕ) (p : ReadMemoryBlocksRequestParser) (block : MemoryBlock8Bits)
      (e : ResponseEncoder)
      → InLimit e
      → p.request_datasize < 2 ^ 16
      → p.bytes_read ≤ p.request_datasize
      → p.request_datasize + 1 < fuel + p.bytes_read
      → BothGive config e.size_limit
          (read_blocks config memory fuel p block e)
          (read_blocks config memory' fuel p block e)
  unfolding read_blocks
  read_blocks-same zero p block e inv small within enough = absurd (omega arith)
  read_blocks-same (suc fuel) p block e inv small within enough =
      let p' = (ReadMemory.next p block).0 in
      let block' = (ReadMemory.next p block).1 in
      elim (Bool-cases p.finished) [
        | inl done ↦ record {
          encoder = e;
          code = ResponseCode.ok;
          left = ground (arith, done);
          right = ground (arith, done);
          written = inv.data_length;
        }
        | inr going ↦ elim (Bool-cases (ReadMemory.next p block).0.invalid) [
          | inl bad ↦ record {
            encoder = e;
            code = ResponseCode.invalid_request;
            left = ground (arith, going, bad);
            right = ground (arith, going, bad);
            written = inv.data_length;
          }
          | inr valid ↦ elim (Bool-cases (forbids config (ReadMemory.next p block).1)) [
            | inl f ↦ record {
              encoder = e;
              code = ResponseCode.forbidden;
              left = ground (arith, going, valid, f);
              right = ground (arith, going, valid, f);
              written = inv.data_length;
            }
            | inr not_f ↦
                let moved = read-Advances p block small within going valid in
                let e' = ReadMemory.write memory e block' in
                let same_e =
                  write-same memory memory' e block' (SameIn-allowed block' moved.small not_f) in
                let inv' = write-InLimit memory e block' inv in
                let limit = write-size_limit memory e block' in
                elim (Bool-cases (ReadMemory.write memory e (ReadMemory.next p block).1).overflow) [
                  | inl full ↦ record {
                    encoder = e';
                    code = ResponseCode.overflow;
                    left = ground (arith, going, valid, not_f, full);
                    right = rw (← same_e) (ground (arith, going, valid, not_f, full));
                    written = let l = inv'.data_length in omega arith;
                  }
                  | inr fits ↦
                      let forward = moved.forward in
                      let same = moved.same in
                      let end = moved.within in
                      let rest =
                        read_blocks-same fuel p' block' e' inv' (omega arith) (omega arith)
                          (omega arith) in
                      let l = rest.left in
                      let r = rest.right in
                      let w = rest.written in
                      record {
                        encoder = rest.encoder;
                        code = rest.code;
                        left = ground (arith, going, valid, not_f, fits, l);
                        right = rw (← same_e) (ground (arith, going, valid, not_f, fits, r));
                        written = omega arith;
                      }
                ]
          ]
        ]
      ]

init_start :
    (request : Request) (buffer : List ℕ)
    → ((ReadMemory.init request buffer).request_datasize ≡ request.data_length)
      × ((ReadMemory.init request buffer).bytes_read ≡ 0)
unfolding ReadMemory.init
init_start request buffer = (read_traverse-same (suc request.data_length) _ new_block, refl)

-- Serving a request to read ends with a code, and gives one response on two memories that differ in
-- forbidden addresses at most, so it tells nothing of what stands there; the response is no longer than the
-- transmission buffer. The forbidden regions end 2^16 bytes before the end of the address space, lengths and
-- the buffer's size have 16 bits, and the response is empty before.
pub process_read_lem :
    (config : Config) (memory memory' : Memory) (request : Request) (buffer : List ℕ)
    (response : Response) (tx_buffer_size : ℕ)
    → IsBelowTop config.forbidden_ranges
    → AgreeOutside config memory memory'
    → request.data_length < 2 ^ 16
    → tx_buffer_size < 2 ^ 16
    → response.data_length ≡ 0
    → (r : Response × ResponseCode) × (process_read config memory request buffer response
          tx_buffer_size
        ≡ some r)
      × (process_read config memory' request buffer response tx_buffer_size ≡ some r)
      × (r.0.data_length ≤ tx_buffer_size)
unfolding process_read CodecV1.init
process_read_lem config memory memory' request buffer response tx_buffer_size top agree small
      fits_16 empty =
    let p = ReadMemory.init request buffer in
    let e : ResponseEncoder = CodecV1.init response tx_buffer_size in
    let start = init_start request buffer in
    let size = start.0 in
    let at = start.1 in
    elim (Bool-cases (ReadMemory.init request buffer).invalid) [
      | inl bad ↦ (
        (response, ResponseCode.invalid_request),
        ground (arith, bad),
        ground (arith, bad),
        omega arith,
      )
      | inr valid ↦
          elim (Bool-cases
            (ltb tx_buffer_size (ReadMemory.init request buffer).required_tx_buffer_size)) [
              | inl full ↦ (
                (response, ResponseCode.overflow),
                ground (arith, valid, full),
                ground (arith, valid, full),
                omega arith,
              )
              | inr fits ↦
                  let both =
                    read_blocks-same config top memory memory' agree (suc (suc request.data_length))
                      p new_block e
                      (record {
                        cursor = omega arith;
                        data_length = omega arith;
                        limit = omega arith;
                      })
                      (omega arith) (omega arith) (omega arith) in
                  let l = both.left in
                  let r = both.right in
                  (
                    (both.encoder.response, both.code),
                    ground (arith, valid, fits, l),
                    ground (arith, valid, fits, r),
                    both.written,
                  )
            ]
    ]
