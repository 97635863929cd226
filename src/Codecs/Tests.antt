-- ===== src/Codecs/Tests.antt =====
-- Concrete words, addresses and values.
use scrutiny_embedded.Base.{[], ◌∷◌, ◌++◌, ◌≡◌, inl, inr, refl, arith}
use scrutiny_embedded.Codecs.{
  decode_32_bits_little_endian_8bits, encode_32_bits_little_endian_8bits,
}
use scrutiny_embedded.Codecs.Bytes.{decode-encode}
use scrutiny_embedded.Codecs.Address.{
  encode_address_big_endian_8bits, decode_address_big_endian_8bits, decode_address-encode_address,
}
use scrutiny_embedded.Codecs.AnyType.{
  encode_anytype_big_endian_8bits, encode_anytype_big_endian_char, encode_anytype_lem,
}
use scrutiny_embedded.Tools.Types.{get_type_size_8bits}

decode-encode_example :
    decode_32_bits_little_endian_8bits (encode_32_bits_little_endian_8bits 305419896 ++ (7 ∷ []))
    ≡ 305419896
decode-encode_example = (decode-encode 305419896 (7 ∷ [])).3

decode_address-encode_address_example :
    decode_address_big_endian_8bits 4 (encode_address_big_endian_8bits 4 305419896 ++ [])
    ≡ 305419896
decode_address-encode_address_example =
    decode_address-encode_address 4 305419896 [] (inr (inr (inl refl))) (omega arith)

-- An unsigned integer of 16 bits.
encode_anytype_lem_example :
    encode_anytype_big_endian_char 305419896 0x11 ≡ encode_anytype_big_endian_8bits 305419896 0x11
unfolding get_type_size_8bits
encode_anytype_lem_example = (encode_anytype_lem 305419896 0x11 (inr (inl refl))).1
