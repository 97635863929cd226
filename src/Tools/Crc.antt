-- ===== src/Tools/Crc.antt =====
-- `tools::crc32` of lib/src/scrutiny_tools.cpp: a table of sixteen entries, two rounds to a byte.
pub mod Chain
pub mod Bitwise
use scrutiny_embedded.Base.{
  ℕ, List, [], ◌∷◌, bit_xor, get_or, low_bits, ◌>>>◌, complement32, ◌-◌, ◌*◌, ◌/◌, ◌%◌, ◌^◌,
}

abbrev pub table : List ℕ
table =
    0x00000000 ∷ 0x1DB71064 ∷ 0x3B6E20C8 ∷ 0x26D930AC ∷ 0x76DC4190 ∷ 0x6B6B51F4 ∷ 0x4DB26158
    ∷ 0x5005713C ∷ 0xEDB88320 ∷ 0xF00F9344 ∷ 0xD6D6A3E8 ∷ 0xCB61B38C ∷ 0x9B64C2B0 ∷ 0x86D3D2D4
    ∷ 0xA00AE278 ∷ 0xBDBDF21C ∷ []

-- The index is below sixteen; the default of `get_or` is never read.
unfoldable pub lookup_table : ℕ → ℕ
lookup_table i = get_or table i 0

-- One round of the loop.
unfoldable pub crc_byte : ℕ → ℕ → ℕ
crc_byte crc data_i =
    let byte = low_bits data_i 8 in
    let crc' = bit_xor (lookup_table (low_bits (bit_xor crc byte) 4)) (crc >>> 4) in
    bit_xor (lookup_table (low_bits (bit_xor crc' (byte >>> 4)) 4)) (crc' >>> 4)

unfoldable pub crc_loop : ℕ → List ℕ → ℕ
crc_loop crc [] = crc
crc_loop crc (b ∷ bs) = crc_loop (crc_byte crc b) bs

-- `size` is the length of the list.
unfoldable pub crc32 : List ℕ → ℕ → ℕ
crc32 bytes start_value = complement32 (crc_loop (complement32 start_value) bytes)
