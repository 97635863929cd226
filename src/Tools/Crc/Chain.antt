-- ===== src/Tools/Crc/Chain.antt =====
-- The start value of `crc32` continues a checksum over data that comes in pieces.
use scrutiny_embedded.Base.{
  ℕ, List, [], ◌∷◌, ◌++◌, ◌≡◌, refl, ◌<◌, ◌^◌, bit_xor, arith, complement32, low_bits, ◌>>>◌,
}
use scrutiny_embedded.Base.Bits.Xor.{bit_xor-lt}
use scrutiny_embedded.Tools.Crc.{lookup_table, crc_byte, crc_loop, crc32}

lookup_table-lt : (i : ℕ) → lookup_table i < 2 ^ 32
unfolding lookup_table
lookup_table-lt i = ground arith

pub crc_byte-lt : (crc b : ℕ) → crc < 2 ^ 32 → crc_byte crc b < 2 ^ 32
unfolding crc_byte
crc_byte-lt crc b h =
    let first =
      bit_xor-lt 32 (lookup_table (low_bits (bit_xor crc (low_bits b 8)) 4)) (crc >>> 4)
        (lookup_table-lt _) (omega arith) in
    bit_xor-lt 32 (lookup_table _) _ (lookup_table-lt _) (omega (arith, first))

pub crc_loop-lt : (crc : ℕ) (bs : List ℕ) → crc < 2 ^ 32 → crc_loop crc bs < 2 ^ 32
unfolding crc_loop
crc_loop-lt crc [] h = h
crc_loop-lt crc (b ∷ bs) h = crc_loop-lt (crc_byte crc b) bs (crc_byte-lt crc b h)

crc_loop-append :
    (crc : ℕ) (xs ys : List ℕ) → crc_loop crc (xs ++ ys) ≡ crc_loop (crc_loop crc xs) ys
unfolding crc_loop
crc_loop-append crc [] ys = refl
crc_loop-append crc (x ∷ xs) ys = crc_loop-append (crc_byte crc x) xs ys

pub crc32-lt : (bs : List ℕ) (start : ℕ) → crc32 bs start < 2 ^ 32
unfolding crc32
crc32-lt bs start = omega arith

-- The checksum of a concatenation is that of the second part, started at that of the first.
pub crc32-append : (xs ys : List ℕ) (start : ℕ) → crc32 (xs ++ ys) start ≡ crc32 ys (crc32 xs start)
unfolding crc32
crc32-append xs ys start =
    let bound = crc_loop-lt (complement32 start) xs (omega arith) in
    let twice : complement32 (complement32 (crc_loop (complement32 start) xs))
        ≡ crc_loop (complement32 start) xs =
      omega arith in
    rw (twice, crc_loop-append (complement32 start) xs ys)
