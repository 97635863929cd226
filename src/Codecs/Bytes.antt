-- ===== src/Codecs/Bytes.antt =====
-- What the decoders read, and round trips.
use scrutiny_embedded.Base.{
  ℕ, List, ◌∷◌, ◌++◌, ◌+◌, ◌*◌, ◌%◌, ◌^◌, ◌≡◌, arith, bit_or, low_bits, ◌<<<◌, ◌>>>◌,
}
use scrutiny_embedded.Base.Bits.Or.{bit_or-first, bit_or-byte}
use scrutiny_embedded.Codecs.{
  encode_16_bits_big_endian_8bits, encode_16_bits_little_endian_8bits,
  encode_32_bits_big_endian_8bits, encode_32_bits_little_endian_8bits,
  encode_64_bits_big_endian_8bits, encode_64_bits_little_endian_8bits,
  decode_16_bits_big_endian_8bits, decode_16_bits_little_endian_8bits,
  decode_32_bits_big_endian_8bits, decode_32_bits_little_endian_8bits,
  decode_64_bits_big_endian_8bits, decode_64_bits_little_endian_8bits,
}

-- The word of 16 bits whose bytes are given, the highest first.
abbrev word16 : ℕ → ℕ → ℕ
word16 b0 b1 = b0 % 2 ^ 8 * 2 ^ 8 + b1 % 2 ^ 8 * 2 ^ 0

or_bytes16 :
    (b0 b1 : ℕ) → bit_or (bit_or 0 (low_bits b0 8 <<< 8)) (low_bits b1 8 <<< 0) ≡ word16 b0 b1
or_bytes16 b0 b1 = rw (bit_or-first 8 b0, bit_or-byte 0 (b0 % 2 ^ 8) b1) (omega arith)

-- The word of 32 bits whose bytes are given, the highest first.
abbrev word32 : ℕ → ℕ → ℕ → ℕ → ℕ
word32 b0 b1 b2 b3 =
    b0 % 2 ^ 8 * 2 ^ 24 + b1 % 2 ^ 8 * 2 ^ 16 + b2 % 2 ^ 8 * 2 ^ 8 + b3 % 2 ^ 8 * 2 ^ 0

or_bytes32 :
    (b0 b1 b2 b3 : ℕ)
    → bit_or
        (bit_or
          (bit_or (bit_or 0 (low_bits b0 8 <<< 24)) (low_bits b1 8 <<< 16))
          (low_bits b2 8 <<< 8))
        (low_bits b3 8 <<< 0)
      ≡ word32 b0 b1 b2 b3
or_bytes32 b0 b1 b2 b3 =
    rw
      (
        bit_or-first 24 b0,
        bit_or-byte 16 (b0 % 2 ^ 8) b1,
        bit_or-byte 8 ((b0 % 2 ^ 8) * 2 ^ 8 + b1 % 2 ^ 8) b2,
        bit_or-byte 0 (((b0 % 2 ^ 8) * 2 ^ 8 + b1 % 2 ^ 8) * 2 ^ 8 + b2 % 2 ^ 8) b3,
      )
      (omega arith)

-- The word of 64 bits whose bytes are given, the highest first.
abbrev word64 : ℕ → ℕ → ℕ → ℕ → ℕ → ℕ → ℕ → ℕ → ℕ
word64 b0 b1 b2 b3 b4 b5 b6 b7 =
    b0 % 2 ^ 8 * 2 ^ 56
    + b1 % 2 ^ 8 * 2 ^ 48
    + b2 % 2 ^ 8 * 2 ^ 40
    + b3 % 2 ^ 8 * 2 ^ 32
    + b4 % 2 ^ 8 * 2 ^ 24
    + b5 % 2 ^ 8 * 2 ^ 16
    + b6 % 2 ^ 8 * 2 ^ 8
    + b7 % 2 ^ 8 * 2 ^ 0

or_bytes64 :
    (b0 b1 b2 b3 b4 b5 b6 b7 : ℕ)
    → bit_or
        (bit_or
          (bit_or
            (bit_or
              (bit_or
                (bit_or
                  (bit_or (bit_or 0 (low_bits b0 8 <<< 56)) (low_bits b1 8 <<< 48))
                  (low_bits b2 8 <<< 40))
                (low_bits b3 8 <<< 32))
              (low_bits b4 8 <<< 24))
            (low_bits b5 8 <<< 16))
          (low_bits b6 8 <<< 8))
        (low_bits b7 8 <<< 0)
      ≡ word64 b0 b1 b2 b3 b4 b5 b6 b7
or_bytes64 b0 b1 b2 b3 b4 b5 b6 b7 =
    rw
      (
        bit_or-first 56 b0,
        bit_or-byte 48 (b0 % 2 ^ 8) b1,
        bit_or-byte 40 ((b0 % 2 ^ 8) * 2 ^ 8 + b1 % 2 ^ 8) b2,
        bit_or-byte 32 (((b0 % 2 ^ 8) * 2 ^ 8 + b1 % 2 ^ 8) * 2 ^ 8 + b2 % 2 ^ 8) b3,
        bit_or-byte 24
            ((((b0 % 2 ^ 8) * 2 ^ 8 + b1 % 2 ^ 8) * 2 ^ 8 + b2 % 2 ^ 8) * 2 ^ 8 + b3 % 2 ^ 8) b4,
        bit_or-byte 16
            (((((b0 % 2 ^ 8) * 2 ^ 8 + b1 % 2 ^ 8) * 2 ^ 8 + b2 % 2 ^ 8) * 2 ^ 8 + b3 % 2 ^ 8)
                * 2 ^ 8
              + b4 % 2 ^ 8)
            b5,
        bit_or-byte 8
            ((((((b0 % 2 ^ 8) * 2 ^ 8 + b1 % 2 ^ 8) * 2 ^ 8 + b2 % 2 ^ 8) * 2 ^ 8 + b3 % 2 ^ 8)
                    * 2 ^ 8
                  + b4 % 2 ^ 8)
                * 2 ^ 8
              + b5 % 2 ^ 8)
            b6,
        bit_or-byte 0
            (((((((b0 % 2 ^ 8) * 2 ^ 8 + b1 % 2 ^ 8) * 2 ^ 8 + b2 % 2 ^ 8) * 2 ^ 8 + b3 % 2 ^ 8)
                        * 2 ^ 8
                      + b4 % 2 ^ 8)
                    * 2 ^ 8
                  + b5 % 2 ^ 8)
                * 2 ^ 8
              + b6 % 2 ^ 8)
            b7,
      )
      (omega arith)

pub decode_16_bits_big_endian_8bits_lem :
    (b0 b1 : ℕ) (rest : List ℕ) → decode_16_bits_big_endian_8bits (b0 ∷ b1 ∷ rest) ≡ word16 b0 b1
unfolding decode_16_bits_big_endian_8bits
decode_16_bits_big_endian_8bits_lem b0 b1 rest = or_bytes16 b0 b1

decode_16_bits_little_endian_8bits_lem :
    (b0 b1 : ℕ) (rest : List ℕ) → decode_16_bits_little_endian_8bits (b0 ∷ b1 ∷ rest) ≡ word16 b1 b0
unfolding decode_16_bits_little_endian_8bits
decode_16_bits_little_endian_8bits_lem b0 b1 rest = or_bytes16 b1 b0

decode_32_bits_big_endian_8bits_lem :
    (b0 b1 b2 b3 : ℕ) (rest : List ℕ)
    → decode_32_bits_big_endian_8bits (b0 ∷ b1 ∷ b2 ∷ b3 ∷ rest) ≡ word32 b0 b1 b2 b3
unfolding decode_32_bits_big_endian_8bits
decode_32_bits_big_endian_8bits_lem b0 b1 b2 b3 rest = or_bytes32 b0 b1 b2 b3

decode_32_bits_little_endian_8bits_lem :
    (b0 b1 b2 b3 : ℕ) (rest : List ℕ)
    → decode_32_bits_little_endian_8bits (b0 ∷ b1 ∷ b2 ∷ b3 ∷ rest) ≡ word32 b3 b2 b1 b0
unfolding decode_32_bits_little_endian_8bits
decode_32_bits_little_endian_8bits_lem b0 b1 b2 b3 rest = or_bytes32 b3 b2 b1 b0

decode_64_bits_big_endian_8bits_lem :
    (b0 b1 b2 b3 b4 b5 b6 b7 : ℕ) (rest : List ℕ)
    → decode_64_bits_big_endian_8bits (b0 ∷ b1 ∷ b2 ∷ b3 ∷ b4 ∷ b5 ∷ b6 ∷ b7 ∷ rest)
      ≡ word64 b0 b1 b2 b3 b4 b5 b6 b7
unfolding decode_64_bits_big_endian_8bits
decode_64_bits_big_endian_8bits_lem b0 b1 b2 b3 b4 b5 b6 b7 rest =
    or_bytes64 b0 b1 b2 b3 b4 b5 b6 b7

decode_64_bits_little_endian_8bits_lem :
    (b0 b1 b2 b3 b4 b5 b6 b7 : ℕ) (rest : List ℕ)
    → decode_64_bits_little_endian_8bits (b0 ∷ b1 ∷ b2 ∷ b3 ∷ b4 ∷ b5 ∷ b6 ∷ b7 ∷ rest)
      ≡ word64 b7 b6 b5 b4 b3 b2 b1 b0
unfolding decode_64_bits_little_endian_8bits
decode_64_bits_little_endian_8bits_lem b0 b1 b2 b3 b4 b5 b6 b7 rest =
    or_bytes64 b7 b6 b5 b4 b3 b2 b1 b0

decode-encode_16_big :
    (value : ℕ) (rest : List ℕ)
    → decode_16_bits_big_endian_8bits (encode_16_bits_big_endian_8bits value ++ rest)
      ≡ value % 2 ^ 16
unfolding encode_16_bits_big_endian_8bits
decode-encode_16_big value rest = omega (
  arith,
  decode_16_bits_big_endian_8bits_lem (low_bits (value >>> 8) 8) (low_bits (value >>> 0) 8) rest,
)

decode-encode_16_little :
    (value : ℕ) (rest : List ℕ)
    → decode_16_bits_little_endian_8bits (encode_16_bits_little_endian_8bits value ++ rest)
      ≡ value % 2 ^ 16
unfolding encode_16_bits_little_endian_8bits
decode-encode_16_little value rest = omega (
  arith,
  decode_16_bits_little_endian_8bits_lem (low_bits (value >>> 0) 8) (low_bits (value >>> 8) 8) rest,
)

decode-encode_32_big :
    (value : ℕ) (rest : List ℕ)
    → decode_32_bits_big_endian_8bits (encode_32_bits_big_endian_8bits value ++ rest)
      ≡ value % 2 ^ 32
unfolding encode_32_bits_big_endian_8bits
decode-encode_32_big value rest = omega (
  arith,
  decode_32_bits_big_endian_8bits_lem (low_bits (value >>> 24) 8) (low_bits (value >>> 16) 8)
      (low_bits (value >>> 8) 8) (low_bits (value >>> 0) 8) rest,
)

decode-encode_32_little :
    (value : ℕ) (rest : List ℕ)
    → decode_32_bits_little_endian_8bits (encode_32_bits_little_endian_8bits value ++ rest)
      ≡ value % 2 ^ 32
unfolding encode_32_bits_little_endian_8bits
decode-encode_32_little value rest = omega (
  arith,
  decode_32_bits_little_endian_8bits_lem (low_bits (value >>> 0) 8) (low_bits (value >>> 8) 8)
      (low_bits (value >>> 16) 8) (low_bits (value >>> 24) 8) rest,
)

decode-encode_64_big :
    (value : ℕ) (rest : List ℕ)
    → decode_64_bits_big_endian_8bits (encode_64_bits_big_endian_8bits value ++ rest)
      ≡ value % 2 ^ 64
unfolding encode_64_bits_big_endian_8bits
decode-encode_64_big value rest = omega (
  arith,
  decode_64_bits_big_endian_8bits_lem (low_bits (value >>> 56) 8) (low_bits (value >>> 48) 8)
      (low_bits (value >>> 40) 8) (low_bits (value >>> 32) 8) (low_bits (value >>> 24) 8)
      (low_bits (value >>> 16) 8) (low_bits (value >>> 8) 8) (low_bits (value >>> 0) 8) rest,
)

decode-encode_64_little :
    (value : ℕ) (rest : List ℕ)
    → decode_64_bits_little_endian_8bits (encode_64_bits_little_endian_8bits value ++ rest)
      ≡ value % 2 ^ 64
unfolding encode_64_bits_little_endian_8bits
decode-encode_64_little value rest = omega (
  arith,
  decode_64_bits_little_endian_8bits_lem (low_bits (value >>> 0) 8) (low_bits (value >>> 8) 8)
      (low_bits (value >>> 16) 8) (low_bits (value >>> 24) 8) (low_bits (value >>> 32) 8)
      (low_bits (value >>> 40) 8) (low_bits (value >>> 48) 8) (low_bits (value >>> 56) 8) rest,
)

-- What an encoder writes, whatever follows it, the decoder of the same width and byte order reads
-- back, for each width and each order: the value's remainder by the width.
pub decode-encode :
    (value : ℕ) (rest : List ℕ)
    → (decode_16_bits_big_endian_8bits (encode_16_bits_big_endian_8bits value ++ rest)
        ≡ value % 2 ^ 16)
      × (decode_16_bits_little_endian_8bits (encode_16_bits_little_endian_8bits value ++ rest)
          ≡ value % 2 ^ 16)
      × (decode_32_bits_big_endian_8bits (encode_32_bits_big_endian_8bits value ++ rest)
          ≡ value % 2 ^ 32)
      × (decode_32_bits_little_endian_8bits (encode_32_bits_little_endian_8bits value ++ rest)
          ≡ value % 2 ^ 32)
      × (decode_64_bits_big_endian_8bits (encode_64_bits_big_endian_8bits value ++ rest)
          ≡ value % 2 ^ 64)
      × (decode_64_bits_little_endian_8bits (encode_64_bits_little_endian_8bits value ++ rest)
          ≡ value % 2 ^ 64)
decode-encode value rest = (
  decode-encode_16_big value rest,
  decode-encode_16_little value rest,
  decode-encode_32_big value rest,
  decode-encode_32_little value rest,
  decode-encode_64_big value rest,
  decode-encode_64_little value rest,
)
