-- ===== src/Codecs/AnyType.antt =====
-- `encode_anytype_big_endian_8bits` and `encode_anytype_big_endian_char` of
-- lib/src/scrutiny_common_codecs.cpp.
use scrutiny_embedded.Base.{
  ℕ, List, [], ◌∷◌, ◌+◌, ◌*◌, ◌%◌, ◌^◌, ◌≡◌, ◌⊎◌, inl, inr, refl, sym, subst, arith, low_bits, ◌==◌,
  if◌then◌else◌, length,
}
use scrutiny_embedded.Codecs.{
  encode_16_bits_big_endian_8bits, encode_32_bits_big_endian_8bits, encode_64_bits_big_endian_8bits,
}
use scrutiny_embedded.Tools.Types.{get_type_size_8bits, get_type_size_char}

-- `AnyType` is a union: its value here is the number in `uint64`, and the narrower members are the low
-- bits of it, as on a little endian machine. The list is what is written to the buffer, and the
-- library's result its length: 0 where the size is none of those that there are.
unfoldable pub encode_sized : ℕ → ℕ → List ℕ
encode_sized val typesize =
    if typesize == 1
    then low_bits val 8 ∷ []
    else if typesize == 2
    then encode_16_bits_big_endian_8bits (low_bits val 16)
    else if typesize == 4
    then encode_32_bits_big_endian_8bits (low_bits val 32)
    else if typesize == 8
    then encode_64_bits_big_endian_8bits (low_bits val 64)
    else []

unfoldable pub encode_anytype_big_endian_8bits : ℕ → ℕ → List ℕ
encode_anytype_big_endian_8bits val vartype = encode_sized val (get_type_size_8bits vartype)

-- With 8 bits to a char `sizeof` of each type is its size in bytes.
unfoldable pub encode_anytype_big_endian_char : ℕ → ℕ → List ℕ
encode_anytype_big_endian_char val vartype =
    let typesize = get_type_size_char vartype in
    if typesize == 1
    then low_bits val 8 ∷ []
    else if typesize == 2
    then encode_16_bits_big_endian_8bits (low_bits val 16)
    else if typesize == 4
    then encode_32_bits_big_endian_8bits (low_bits val 32)
    else if typesize == 8
    then encode_64_bits_big_endian_8bits (low_bits val 64)
    else []

-- The number that bytes stand for, the highest one first.
unfoldable pub big_endian_value : ℕ → List ℕ → ℕ
big_endian_value acc [] = acc
big_endian_value acc (b ∷ bs) = big_endian_value (acc * 2 ^ 8 + b) bs

-- The sizes of the types that the library handles.
abbrev IsTypeSize : ℕ → Type 0
IsTypeSize n = (n ≡ 1) ⊎ (n ≡ 2) ⊎ (n ≡ 4) ⊎ (n ≡ 8)

abbrev pub Encodes : ℕ → List ℕ → ℕ → Type 0
Encodes n bytes val = (length bytes ≡ n) × (big_endian_value 0 bytes ≡ val % 2 ^ (8 * n))

encode_sized_lem : (val n : ℕ) → IsTypeSize n → Encodes n (encode_sized val n) val
unfolding encode_sized big_endian_value encode_16_bits_big_endian_8bits
    encode_32_bits_big_endian_8bits encode_64_bits_big_endian_8bits
encode_sized_lem val n (inl e) =
    subst (λ n. Encodes n (encode_sized val n) val) (sym e) (refl, omega arith)
encode_sized_lem val n (inr (inl e)) =
    subst (λ n. Encodes n (encode_sized val n) val) (sym e) (refl, omega arith)
encode_sized_lem val n (inr (inr (inl e))) =
    subst (λ n. Encodes n (encode_sized val n) val) (sym e) (refl, omega arith)
encode_sized_lem val n (inr (inr (inr e))) =
    subst (λ n. Encodes n (encode_sized val n) val) (sym e) (refl, omega arith)

-- A value of a type of 1, 2, 4 or 8 bytes is written as that many bytes, which stand, the highest
-- first, for the value's remainder by the type's width, by both encoders.
pub encode_anytype_lem :
    (val vartype : ℕ)
    → IsTypeSize (get_type_size_8bits vartype)
    → Encodes (get_type_size_8bits vartype) (encode_anytype_big_endian_8bits val vartype) val
      × (encode_anytype_big_endian_char val vartype ≡ encode_anytype_big_endian_8bits val vartype)
unfolding encode_anytype_big_endian_8bits encode_anytype_big_endian_char get_type_size_char
    encode_sized
encode_anytype_lem val vartype size =
    (encode_sized_lem val (get_type_size_8bits vartype) size, refl)
