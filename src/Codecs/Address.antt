-- ===== src/Codecs/Address.antt =====
-- `encode_address_big_endian_8bits` and `decode_address_big_endian_8bits` of
-- lib/src/scrutiny_common_codecs.cpp, for each size of a pointer in bytes: 1, 2, 4 or 8.
use scrutiny_embedded.Base.{
  ℕ, List, [], ◌∷◌, ◌++◌, ◌+◌, ◌*◌, ◌%◌, ◌^◌, ◌<◌, ◌≡◌, ◌⊎◌, inl, inr, sym, subst, ◌∙◌, arith,
  bit_or, low_bits, ◌<<<◌, ◌>>>◌, leb, ◌==◌, if◌then◌else◌,
}
use scrutiny_embedded.Base.Bits.Or.{bit_or-first, bit_or-byte}

-- `computed_addr |= buf[i++] << k`, on the address so far and the bytes that are left. A char is below
-- 256. The list does not end before the address.
unfoldable pub or_next : ℕ → ℕ × List ℕ → ℕ × List ℕ
or_next k (v, []) = (v, [])
or_next k (v, b ∷ bs) = (bit_or v (b <<< k), bs)

unfoldable pub decode_address_big_endian_8bits : ℕ → List ℕ → ℕ
unfolding or_next
decode_address_big_endian_8bits addr_size buf =
    let start : ℕ × List ℕ = (0, buf) in
    let high =
      if leb 8 addr_size then or_next 32 (or_next 40 (or_next 48 (or_next 56 start))) else start in
    let half = if leb 4 addr_size then or_next 16 (or_next 24 high) else high in
    let low = if leb 2 addr_size then or_next 8 half else half in
    let all = if leb 1 addr_size then or_next 0 low else low in all.0

-- The bytes are written from the last one on: each test puts its own before those that are there.
unfoldable pub encode_address_big_endian_8bits : ℕ → ℕ → List ℕ
encode_address_big_endian_8bits addr_size addr =
    let last = if leb 1 addr_size then low_bits (addr >>> 0) 8 ∷ [] else [] in
    let two = if leb 2 addr_size then low_bits (addr >>> 8) 8 ∷ last else last in
    let four =
      if leb 4 addr_size then low_bits (addr >>> 24) 8 ∷ low_bits (addr >>> 16) 8 ∷ two else two in
    if addr_size == 8
    then low_bits (addr >>> 56) 8
      ∷ low_bits (addr >>> 48) 8
      ∷ low_bits (addr >>> 40) 8
      ∷ low_bits (addr >>> 32) 8
      ∷ four
    else four

round_trip_1 :
    (addr : ℕ) (rest : List ℕ)
    → decode_address_big_endian_8bits 1 (encode_address_big_endian_8bits 1 addr ++ rest)
      ≡ addr % 2 ^ 8
unfolding decode_address_big_endian_8bits encode_address_big_endian_8bits
round_trip_1 addr rest = rw (bit_or-first 0 (addr >>> 0)) (omega arith)

round_trip_2 :
    (addr : ℕ) (rest : List ℕ)
    → decode_address_big_endian_8bits 2 (encode_address_big_endian_8bits 2 addr ++ rest)
      ≡ addr % 2 ^ 16
unfolding decode_address_big_endian_8bits encode_address_big_endian_8bits
round_trip_2 addr rest =
    rw (bit_or-first 8 (addr >>> 8), bit_or-byte 0 (low_bits (addr >>> 8) 8) (addr >>> 0))
      (omega arith)

round_trip_4 :
    (addr : ℕ) (rest : List ℕ)
    → decode_address_big_endian_8bits 4 (encode_address_big_endian_8bits 4 addr ++ rest)
      ≡ addr % 2 ^ 32
unfolding decode_address_big_endian_8bits encode_address_big_endian_8bits
round_trip_4 addr rest =
    rw
      (
        bit_or-first 24 (addr >>> 24),
        bit_or-byte 16 (low_bits (addr >>> 24) 8) (addr >>> 16),
        bit_or-byte 8 ((low_bits (addr >>> 24) 8) * 2 ^ 8 + low_bits (addr >>> 16) 8) (addr >>> 8),
        bit_or-byte 0
            (((low_bits (addr >>> 24) 8) * 2 ^ 8 + low_bits (addr >>> 16) 8) * 2 ^ 8
              + low_bits (addr >>> 8) 8)
            (addr >>> 0),
      )
      (omega arith)

round_trip_8 :
    (addr : ℕ) (rest : List ℕ)
    → decode_address_big_endian_8bits 8 (encode_address_big_endian_8bits 8 addr ++ rest)
      ≡ addr % 2 ^ 64
unfolding decode_address_big_endian_8bits encode_address_big_endian_8bits
round_trip_8 addr rest =
    rw
      (
        bit_or-first 56 (addr >>> 56),
        bit_or-byte 48 (low_bits (addr >>> 56) 8) (addr >>> 48),
        bit_or-byte 40 ((low_bits (addr >>> 56) 8) * 2 ^ 8 + low_bits (addr >>> 48) 8)
            (addr >>> 40),
        bit_or-byte 32
            (((low_bits (addr >>> 56) 8) * 2 ^ 8 + low_bits (addr >>> 48) 8) * 2 ^ 8
              + low_bits (addr >>> 40) 8)
            (addr >>> 32),
        bit_or-byte 24
            ((((low_bits (addr >>> 56) 8) * 2 ^ 8 + low_bits (addr >>> 48) 8) * 2 ^ 8
                  + low_bits (addr >>> 40) 8)
                * 2 ^ 8
              + low_bits (addr >>> 32) 8)
            (addr >>> 24),
        bit_or-byte 16
            (((((low_bits (addr >>> 56) 8) * 2 ^ 8 + low_bits (addr >>> 48) 8) * 2 ^ 8
                      + low_bits (addr >>> 40) 8)
                    * 2 ^ 8
                  + low_bits (addr >>> 32) 8)
                * 2 ^ 8
              + low_bits (addr >>> 24) 8)
            (addr >>> 16),
        bit_or-byte 8
            ((((((low_bits (addr >>> 56) 8) * 2 ^ 8 + low_bits (addr >>> 48) 8) * 2 ^ 8
                          + low_bits (addr >>> 40) 8)
                        * 2 ^ 8
                      + low_bits (addr >>> 32) 8)
                    * 2 ^ 8
                  + low_bits (addr >>> 24) 8)
                * 2 ^ 8
              + low_bits (addr >>> 16) 8)
            (addr >>> 8),
        bit_or-byte 0
            (((((((low_bits (addr >>> 56) 8) * 2 ^ 8 + low_bits (addr >>> 48) 8) * 2 ^ 8
                              + low_bits (addr >>> 40) 8)
                            * 2 ^ 8
                          + low_bits (addr >>> 32) 8)
                        * 2 ^ 8
                      + low_bits (addr >>> 24) 8)
                    * 2 ^ 8
                  + low_bits (addr >>> 16) 8)
                * 2 ^ 8
              + low_bits (addr >>> 8) 8)
            (addr >>> 0),
      )
      (omega arith)

-- The sizes that a pointer can have.
abbrev IsPointerSize : ℕ → Type 0
IsPointerSize n = (n ≡ 1) ⊎ (n ≡ 2) ⊎ (n ≡ 4) ⊎ (n ≡ 8)

-- For a pointer of 1, 2, 4 or 8 bytes, an address that fits it is read back from its encoding,
-- whatever follows.
pub decode_address-encode_address :
    (addr_size addr : ℕ) (rest : List ℕ)
    → IsPointerSize addr_size
    → addr < 2 ^ (8 * addr_size)
    → decode_address_big_endian_8bits addr_size
        (encode_address_big_endian_8bits addr_size addr ++ rest)
      ≡ addr
decode_address-encode_address addr_size addr rest size fits = by_size size fits
  where
    ReadsBack : ℕ → Type 0
    ReadsBack n =
        addr < 2 ^ (8 * n)
        → decode_address_big_endian_8bits n (encode_address_big_endian_8bits n addr ++ rest) ≡ addr

    by_size : IsPointerSize addr_size → ReadsBack addr_size
    by_size (inl e) = subst ReadsBack (sym e) (λ f. round_trip_1 addr rest ∙ omega (arith, f))
    by_size (inr (inl e)) = subst ReadsBack (sym e) (λ f. round_trip_2 addr rest ∙ omega (arith, f))
    by_size (inr (inr (inl e))) =
        subst ReadsBack (sym e) (λ f. round_trip_4 addr rest ∙ omega (arith, f))
    by_size (inr (inr (inr e))) =
        subst ReadsBack (sym e) (λ f. round_trip_8 addr rest ∙ omega (arith, f))
