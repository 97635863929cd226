-- ===== src/Main/Memory/Tests.antt =====
-- Requests that access memory, on concrete values.
use scrutiny_embedded.Base.{
  ℕ, true, false, ◌||◌, List, [], ◌∷◌, ◌++◌, ◌≡◌, ◌≤◌, ◌+◌, refl, inl, inr, arith, Bool-cases,
  Option, some, none, replicate, ◌==◌,
}
use scrutiny_embedded.Protocol.{Request, Response}
use scrutiny_embedded.Protocol.ResponseCode.{ResponseCode}
use scrutiny_embedded.CodecV1
use scrutiny_embedded.CodecV1.ReadMemory
use scrutiny_embedded.CodecV1.WriteMemory
use scrutiny_embedded.CodecV1.Traverse.{traverse_ends}
use scrutiny_embedded.Codecs.{encode_16_bits_big_endian_8bits, decode_16_bits_big_endian_8bits}
use scrutiny_embedded.Codecs.Address.{
  encode_address_big_endian_8bits, decode_address_big_endian_8bits,
}
use scrutiny_embedded.Comm.Receive.{write_at}
use scrutiny_embedded.Main.{touches_any, touches_forbidden_region, touches_readonly_region}
use scrutiny_embedded.Main.Config.{Config}
use scrutiny_embedded.Main.Regions.{IsCovered, IsBelowTop}
use scrutiny_embedded.Main.Memory.{
  Memory, forbids, protects, write_bytes, process_read, process_write, read_blocks, write_blocks,
  write_block, masked_byte, update,
}
use scrutiny_embedded.Main.Memory.Writing.{IsProtected, process_write_lem}
use scrutiny_embedded.Main.Memory.Reading.{AgreeOutside, process_read_lem}

abbrev config : Config
config = record {
  display_name = [];
  max_bitrate = 0;
  rx_buffer_size = 64;
  tx_buffer_size = 32;
  memory_write_enable = true;
  is_forbidden_address_range_set = true;
  forbidden_ranges = record { start = 100; end = 103 } ∷ [];
  is_readonly_address_range_set = true;
  readonly_ranges = record { start = 200; end = 200 } ∷ [];
  rpvs = [];
  rpv_read_callback = none;
  rpv_write_callback = none;
  user_command_callback = none;
  loop_count = 3;
}

abbrev request : ℕ → Request
request n = record {
  command_id = 3;
  subfunction_id = 1;
  data_length = n;
  data_max_length = 64;
  crc = 0;
}

abbrev empty_response : Response
empty_response = record {
  command_id = 0;
  subfunction_id = 0;
  response_code = 0;
  data_length = 0;
  data_max_length = 32;
  payload = replicate 32 0;
  crc = 0;
}

abbrev header : ℕ → ℕ → List ℕ
header addr n = 0 ∷ 0 ∷ 0 ∷ 0 ∷ 0 ∷ 0 ∷ 0 ∷ addr ∷ 0 ∷ n ∷ []

abbrev memory : Memory
memory addr = addr + 1

-- The same but for what stands at a forbidden address.
abbrev memory_with_secret : Memory
memory_with_secret = update memory 101 7

abbrev two_blocks : List ℕ
two_blocks = header 16 2 ++ header 32 1

reads_blocks :
    process_read config memory (request 20) two_blocks empty_response 32
    ≡ some (
      record {
        command_id = 0;
        subfunction_id = 0;
        response_code = 0;
        data_length = 23;
        data_max_length = 32;
        payload = header 16 2 ++ (17 ∷ 18 ∷ []) ++ header 32 1 ++ (33 ∷ replicate 9 0);
        crc = 0;
      },
      ResponseCode.ok,
    )
unfolding process_read read_blocks ReadMemory.init ReadMemory.next ReadMemory.write
    ReadMemory.read_bytes CodecV1.init write_at touches_any encode_16_bits_big_endian_8bits
    decode_16_bits_big_endian_8bits encode_address_big_endian_8bits decode_address_big_endian_8bits
    forbids touches_forbidden_region
reads_blocks = refl

IsBelowTop-forbidden : IsBelowTop config.forbidden_ranges
unfolding IsBelowTop
IsBelowTop-forbidden = (omega arith, tt)

IsBelowTop-readonly : IsBelowTop config.readonly_ranges
unfolding IsBelowTop
IsBelowTop-readonly = (omega arith, tt)

IsProtected-readonly : IsProtected config 200
unfolding IsCovered
IsProtected-readonly = IsProtected.readonly refl (inl (omega arith, omega arith))

process_write_lem_example :
    (r : Memory × Response × ResponseCode) × (process_write config true memory
        (request 24)
        (header 16 2 ++ 1 ∷ 2 ∷ 3 ∷ 4 ∷ two_blocks)
        empty_response
        32
      ≡ some r)
    × (r.0 200 ≡ 201)
process_write_lem_example =
    process_write_lem config true memory (request 24) (header 16 2 ++ 1 ∷ 2 ∷ 3 ∷ 4 ∷ two_blocks)
      empty_response 32 200 IsBelowTop-forbidden IsBelowTop-readonly IsProtected-readonly
      (omega arith)

memory-AgreeOutside : AgreeOutside config memory memory_with_secret
unfolding AgreeOutside IsCovered
memory-AgreeOutside addr allowed = elim (Bool-cases (101 == addr)) [
  | inl secret ↦ absurd (
      allowed
        (record { is_set = refl; covered = inl (ground (arith, secret), ground (arith, secret)) }))
  | inr other ↦ ground (arith, other)
]

process_read_lem_example :
    (r : Response × ResponseCode) × (process_read config memory
        (request 20)
        two_blocks
        empty_response
        32
      ≡ some r)
    × (process_read config memory_with_secret (request 20) two_blocks empty_response 32 ≡ some r)
    × (r.0.data_length ≤ 32)
process_read_lem_example =
    process_read_lem config memory memory_with_secret (request 20) two_blocks empty_response 32
      IsBelowTop-forbidden memory-AgreeOutside (omega arith) (omega arith) refl

-- The code, the length of the response and what stands at an address.
abbrev seen : ℕ → Option (Memory × Response × ResponseCode) → Option (ResponseCode × ℕ × ℕ)
seen addr none = none
seen addr (some (m, r, c)) = some (c, r.data_length, m addr)

-- Four blocks are written, and the response tells of three: it has no place for the fourth.
abbrev four_writes : List ℕ
four_writes = header 1 1 ++ 90 ∷ header 2 1 ++ 90 ∷ header 3 1 ++ 90 ∷ header 4 1 ++ 90 ∷ []

loses_response :
    seen 4 (process_write config false memory (request 44) four_writes empty_response 32)
    ≡ some (ResponseCode.ok, 30, 90)
unfolding process_write write_blocks write_block write_bytes WriteMemory.init WriteMemory.next
    WriteMemory.next_data WriteMemory.write CodecV1.init write_at touches_any
    encode_16_bits_big_endian_8bits decode_16_bits_big_endian_8bits encode_address_big_endian_8bits
    decode_address_big_endian_8bits forbids touches_forbidden_region protects
    touches_readonly_region
loses_response = refl

sets_masked_bits : masked_byte 0x5A 0x0F 0xF0 ≡ 0x0A
unfolding masked_byte
sets_masked_bits = refl

abbrev reader : ReadMemory.ReadMemoryBlocksRequestParser
reader = record {
  buffer = two_blocks;
  bytes_read = 5;
  request_datasize = 20;
  required_tx_buffer_size = 9;
  finished = true;
  invalid = true;
}

abbrev writer : WriteMemory.WriteMemoryBlocksRequestParser
writer = record {
  buffer = four_writes;
  bytes_read = 0;
  size_limit = 44;
  required_tx_buffer_size = 0;
  finished = false;
  invalid = false;
  masked_write = false;
}

traverse_ends_example :
    (let p' = ReadMemory.traverse 21 (ReadMemory.reset reader) CodecV1.new_block in
      (p'.invalid || p'.finished) ≡ true)
    × (let q' = WriteMemory.traverse 45 (WriteMemory.reset writer) CodecV1.new_block in
        (q'.invalid || q'.finished) ≡ true)
traverse_ends_example = traverse_ends reader writer (omega arith) (omega arith)
