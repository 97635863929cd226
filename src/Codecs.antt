-- ===== src/Codecs.antt =====
-- The inline functions of lib/inc/scrutiny_common_codecs.hpp: words and the bytes that hold them, in
-- both byte orders. An encoder gives the bytes that it writes to the buffer, and the library's result
-- is their number; a decoder reads the first bytes of its list. `(x << k) & (0xFF << k)` is
-- `low_bits x 8 <<< k`. A `float` is its pattern of 32 bits, which `memcpy` copies. With 8 bits to a
-- char each `..._char` function is the `..._8bits` one.
pub mod Bytes
pub mod Address
pub mod AnyType
mod Tests
use scrutiny_embedded.Base.{ℕ, List, [], ◌∷◌, ◌*◌, ◌/◌, ◌%◌, ◌^◌, bit_or, low_bits, ◌<<<◌, ◌>>>◌}

unfoldable pub encode_8_bits_8bits : ℕ → List ℕ
encode_8_bits_8bits value = low_bits value 8 ∷ []

unfoldable pub encode_16_bits_big_endian_8bits : ℕ → List ℕ
encode_16_bits_big_endian_8bits value = low_bits (value >>> 8) 8 ∷ low_bits (value >>> 0) 8 ∷ []

unfoldable pub encode_16_bits_big_endian_char : ℕ → List ℕ
unfolding encode_16_bits_big_endian_8bits
encode_16_bits_big_endian_char value = encode_16_bits_big_endian_8bits value

unfoldable pub encode_16_bits_little_endian_8bits : ℕ → List ℕ
encode_16_bits_little_endian_8bits value = low_bits (value >>> 0) 8 ∷ low_bits (value >>> 8) 8 ∷ []

unfoldable pub encode_16_bits_little_endian_char : ℕ → List ℕ
unfolding encode_16_bits_little_endian_8bits
encode_16_bits_little_endian_char value = encode_16_bits_little_endian_8bits value

unfoldable pub encode_32_bits_big_endian_8bits : ℕ → List ℕ
encode_32_bits_big_endian_8bits value =
    low_bits (value >>> 24) 8
    ∷ low_bits (value >>> 16) 8
    ∷ low_bits (value >>> 8) 8
    ∷ low_bits (value >>> 0) 8
    ∷ []

unfoldable pub encode_32_bits_big_endian_char : ℕ → List ℕ
unfolding encode_32_bits_big_endian_8bits
encode_32_bits_big_endian_char value = encode_32_bits_big_endian_8bits value

unfoldable pub encode_32_bits_little_endian_8bits : ℕ → List ℕ
encode_32_bits_little_endian_8bits value =
    low_bits (value >>> 0) 8
    ∷ low_bits (value >>> 8) 8
    ∷ low_bits (value >>> 16) 8
    ∷ low_bits (value >>> 24) 8
    ∷ []

unfoldable pub encode_32_bits_little_endian_char : ℕ → List ℕ
unfolding encode_32_bits_little_endian_8bits
encode_32_bits_little_endian_char value = encode_32_bits_little_endian_8bits value

unfoldable pub encode_64_bits_big_endian_8bits : ℕ → List ℕ
encode_64_bits_big_endian_8bits value =
    low_bits (value >>> 56) 8
    ∷ low_bits (value >>> 48) 8
    ∷ low_bits (value >>> 40) 8
    ∷ low_bits (value >>> 32) 8
    ∷ low_bits (value >>> 24) 8
    ∷ low_bits (value >>> 16) 8
    ∷ low_bits (value >>> 8) 8
    ∷ low_bits (value >>> 0) 8
    ∷ []

unfoldable pub encode_64_bits_big_endian_char : ℕ → List ℕ
unfolding encode_64_bits_big_endian_8bits
encode_64_bits_big_endian_char value = encode_64_bits_big_endian_8bits value

unfoldable pub encode_64_bits_little_endian_8bits : ℕ → List ℕ
encode_64_bits_little_endian_8bits value =
    low_bits (value >>> 0) 8
    ∷ low_bits (value >>> 8) 8
    ∷ low_bits (value >>> 16) 8
    ∷ low_bits (value >>> 24) 8
    ∷ low_bits (value >>> 32) 8
    ∷ low_bits (value >>> 40) 8
    ∷ low_bits (value >>> 48) 8
    ∷ low_bits (value >>> 56) 8
    ∷ []

unfoldable pub encode_64_bits_little_endian_char : ℕ → List ℕ
unfolding encode_64_bits_little_endian_8bits
encode_64_bits_little_endian_char value = encode_64_bits_little_endian_8bits value

unfoldable pub encode_float_big_endian_8bits : ℕ → List ℕ
unfolding encode_32_bits_big_endian_8bits
encode_float_big_endian_8bits value = encode_32_bits_big_endian_8bits value

unfoldable pub encode_float_big_endian_char : ℕ → List ℕ
unfolding encode_float_big_endian_8bits
encode_float_big_endian_char value = encode_float_big_endian_8bits value

unfoldable pub encode_float_little_endian_8bits : ℕ → List ℕ
unfolding encode_32_bits_little_endian_8bits
encode_float_little_endian_8bits value = encode_32_bits_little_endian_8bits value

unfoldable pub encode_float_little_endian_char : ℕ → List ℕ
unfolding encode_float_little_endian_8bits
encode_float_little_endian_char value = encode_float_little_endian_8bits value

-- A list that is too short stands for a read out of bounds, which no caller does.
unfoldable pub decode_64_bits_big_endian_8bits : List ℕ → ℕ
decode_64_bits_big_endian_8bits (b0 ∷ b1 ∷ b2 ∷ b3 ∷ b4 ∷ b5 ∷ b6 ∷ b7 ∷ _) =
    bit_or
      (bit_or
        (bit_or
          (bit_or
            (bit_or
              (bit_or (bit_or (bit_or 0 (low_bits b0 8 <<< 56)) (low_bits b1 8 <<< 48))
                (low_bits b2 8 <<< 40))
              (low_bits b3 8 <<< 32))
            (low_bits b4 8 <<< 24))
          (low_bits b5 8 <<< 16))
        (low_bits b6 8 <<< 8))
      (low_bits b7 8 <<< 0)
decode_64_bits_big_endian_8bits _ = 0

unfoldable pub decode_64_bits_big_endian_char : List ℕ → ℕ
unfolding decode_64_bits_big_endian_8bits
decode_64_bits_big_endian_char buff = decode_64_bits_big_endian_8bits buff

unfoldable pub decode_64_bits_little_endian_8bits : List ℕ → ℕ
decode_64_bits_little_endian_8bits (b0 ∷ b1 ∷ b2 ∷ b3 ∷ b4 ∷ b5 ∷ b6 ∷ b7 ∷ _) =
    bit_or
      (bit_or
        (bit_or
          (bit_or
            (bit_or
              (bit_or (bit_or (bit_or 0 (low_bits b7 8 <<< 56)) (low_bits b6 8 <<< 48))
                (low_bits b5 8 <<< 40))
              (low_bits b4 8 <<< 32))
            (low_bits b3 8 <<< 24))
          (low_bits b2 8 <<< 16))
        (low_bits b1 8 <<< 8))
      (low_bits b0 8 <<< 0)
decode_64_bits_little_endian_8bits _ = 0

unfoldable pub decode_64_bits_little_endian_char : List ℕ → ℕ
unfolding decode_64_bits_little_endian_8bits
decode_64_bits_little_endian_char buff = decode_64_bits_little_endian_8bits buff

unfoldable pub decode_32_bits_big_endian_8bits : List ℕ → ℕ
decode_32_bits_big_endian_8bits (b0 ∷ b1 ∷ b2 ∷ b3 ∷ _) =
    bit_or
      (bit_or (bit_or (bit_or 0 (low_bits b0 8 <<< 24)) (low_bits b1 8 <<< 16))
        (low_bits b2 8 <<< 8))
      (low_bits b3 8 <<< 0)
decode_32_bits_big_endian_8bits _ = 0

unfoldable pub decode_32_bits_big_endian_char : List ℕ → ℕ
unfolding decode_32_bits_big_endian_8bits
decode_32_bits_big_endian_char buff = decode_32_bits_big_endian_8bits buff

unfoldable pub decode_32_bits_little_endian_8bits : List ℕ → ℕ
decode_32_bits_little_endian_8bits (b0 ∷ b1 ∷ b2 ∷ b3 ∷ _) =
    bit_or
      (bit_or (bit_or (bit_or 0 (low_bits b3 8 <<< 24)) (low_bits b2 8 <<< 16))
        (low_bits b1 8 <<< 8))
      (low_bits b0 8 <<< 0)
decode_32_bits_little_endian_8bits _ = 0

unfoldable pub decode_32_bits_little_endian_char : List ℕ → ℕ
unfolding decode_32_bits_little_endian_8bits
decode_32_bits_little_endian_char buff = decode_32_bits_little_endian_8bits buff

unfoldable pub decode_16_bits_big_endian_8bits : List ℕ → ℕ
decode_16_bits_big_endian_8bits (b0 ∷ b1 ∷ _) =
    bit_or (bit_or 0 (low_bits b0 8 <<< 8)) (low_bits b1 8 <<< 0)
decode_16_bits_big_endian_8bits _ = 0

unfoldable pub decode_16_bits_big_endian_char : List ℕ → ℕ
unfolding decode_16_bits_big_endian_8bits
decode_16_bits_big_endian_char buff = decode_16_bits_big_endian_8bits buff

unfoldable pub decode_16_bits_little_endian_8bits : List ℕ → ℕ
decode_16_bits_little_endian_8bits (b0 ∷ b1 ∷ _) =
    bit_or (bit_or 0 (low_bits b1 8 <<< 8)) (low_bits b0 8 <<< 0)
decode_16_bits_little_endian_8bits _ = 0

unfoldable pub decode_16_bits_little_endian_char : List ℕ → ℕ
unfolding decode_16_bits_little_endian_8bits
decode_16_bits_little_endian_char buff = decode_16_bits_little_endian_8bits buff

unfoldable pub decode_float_big_endian_8bits : List ℕ → ℕ
unfolding decode_32_bits_big_endian_8bits
decode_float_big_endian_8bits buff = decode_32_bits_big_endian_8bits buff

unfoldable pub decode_float_big_endian_char : List ℕ → ℕ
unfolding decode_float_big_endian_8bits
decode_float_big_endian_char buff = decode_float_big_endian_8bits buff

unfoldable pub decode_float_little_endian_8bits : List ℕ → ℕ
unfolding decode_32_bits_little_endian_8bits
decode_float_little_endian_8bits buff = decode_32_bits_little_endian_8bits buff

unfoldable pub decode_float_little_endian_char : List ℕ → ℕ
unfolding decode_float_little_endian_8bits
decode_float_little_endian_char buff = decode_float_little_endian_8bits buff
