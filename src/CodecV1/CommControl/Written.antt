-- ===== src/CodecV1/CommControl/Written.antt =====
-- What a write to a buffer leaves there, from the place of the write on.
use scrutiny_embedded.Base.{
  ℕ, zero, suc, ◌+◌, ◌%◌, ◌^◌, ◌≤◌, ◌≡◌, ◌∙◌, refl, sym, ap, arith, List, [], ◌∷◌, ◌++◌, length,
  take, drop, length-drop,
}
use scrutiny_embedded.Codecs.{
  encode_16_bits_big_endian_8bits, encode_32_bits_big_endian_8bits, decode_16_bits_big_endian_8bits,
  decode_32_bits_big_endian_8bits,
}
use scrutiny_embedded.Codecs.Bytes.{decode-encode}
use scrutiny_embedded.Comm.Valid.{length-write_at}
use scrutiny_embedded.Comm.Receive.{write_at}

-- A write from the start that fits.
pub write_at-fits :
    (xs bs : List ℕ) → length bs ≤ length xs → write_at xs 0 bs ≡ bs ++ drop (length bs) xs
unfolding write_at
write_at-fits [] [] fits = refl
write_at-fits (x ∷ xs) [] fits = refl
write_at-fits [] (b ∷ bs) fits = absurd (omega arith)
write_at-fits (x ∷ xs) (b ∷ bs) fits = ap (λ t. b ∷ t) (write_at-fits xs bs (omega arith))

-- What is before the place stays.
pub take-write_at :
    (n : ℕ) (xs : List ℕ) (at : ℕ) (bs : List ℕ) → n ≤ at → take n (write_at xs at bs) ≡ take n xs
unfolding write_at
take-write_at zero xs at bs before = refl
take-write_at (suc n) [] at bs before = refl
take-write_at (suc n) (x ∷ xs) zero bs before = absurd (omega arith)
take-write_at (suc n) (x ∷ xs) (suc at) bs before =
    ap (λ t. x ∷ t) (take-write_at n xs at bs (omega arith))

pub drop-write_at :
    (xs : List ℕ) (at : ℕ) (bs : List ℕ) → drop at (write_at xs at bs) ≡ write_at (drop at xs) 0 bs
unfolding write_at
drop-write_at [] zero bs = refl
drop-write_at [] (suc at) bs = refl
drop-write_at (x ∷ xs) zero bs = refl
drop-write_at (x ∷ xs) (suc at) bs = drop-write_at xs at bs

-- A word that is written to a buffer is read there, and four bytes from the start are read in front of it.
pub decode-write_at_32 :
    (xs : List ℕ) (at value : ℕ)
    → at + 4 ≤ length xs
    → decode_32_bits_big_endian_8bits
        (drop at (write_at xs at (encode_32_bits_big_endian_8bits value)))
      ≡ value % 2 ^ 32
unfolding encode_32_bits_big_endian_8bits
decode-write_at_32 xs at value fits =
    let bytes = encode_32_bits_big_endian_8bits value in
    ap decode_32_bits_big_endian_8bits (
      drop-write_at xs at bytes
      ∙ write_at-fits (drop at xs) bytes (omega (arith, length-drop at xs, fits)))
    ∙ (decode-encode value (drop 4 (drop at xs))).2

pub decode-write_at_16 :
    (xs : List ℕ) (at value : ℕ)
    → at + 2 ≤ length xs
    → decode_16_bits_big_endian_8bits
        (drop at (write_at xs at (encode_16_bits_big_endian_8bits value)))
      ≡ value % 2 ^ 16
unfolding encode_16_bits_big_endian_8bits
decode-write_at_16 xs at value fits =
    let bytes = encode_16_bits_big_endian_8bits value in
    ap decode_16_bits_big_endian_8bits (
      drop-write_at xs at bytes
      ∙ write_at-fits (drop at xs) bytes (omega (arith, length-drop at xs, fits)))
    ∙ (decode-encode value (drop 2 (drop at xs))).0

decode-take_32 :
    (xs : List ℕ) → decode_32_bits_big_endian_8bits (take 4 xs) ≡ decode_32_bits_big_endian_8bits xs
unfolding decode_32_bits_big_endian_8bits
decode-take_32 [] = refl
decode-take_32 (a ∷ []) = refl
decode-take_32 (a ∷ b ∷ []) = refl
decode-take_32 (a ∷ b ∷ c ∷ []) = refl
decode-take_32 (a ∷ b ∷ c ∷ d ∷ xs) = refl

pub drop-encode_32 :
    (value : ℕ) (rest : List ℕ) → drop 4 (encode_32_bits_big_endian_8bits value ++ rest) ≡ rest
unfolding encode_32_bits_big_endian_8bits
drop-encode_32 value rest = refl

-- An identifier, and a word behind it that a write left, are both read.
pub decode-pair :
    (xs : List ℕ) (id value : ℕ)
    → 6 ≤ length xs
    → (let left = write_at xs 0 (encode_32_bits_big_endian_8bits id) in
        let both = write_at left 4 (encode_16_bits_big_endian_8bits value) in
        (decode_32_bits_big_endian_8bits both ≡ id % 2 ^ 32)
        × (decode_16_bits_big_endian_8bits (drop 4 both) ≡ value % 2 ^ 16))
decode-pair xs id value fits =
    let left = write_at xs 0 (encode_32_bits_big_endian_8bits id) in
    let bytes = encode_16_bits_big_endian_8bits value in
    (
      sym (decode-take_32 (write_at left 4 bytes))
          ∙ ap decode_32_bits_big_endian_8bits (take-write_at 4 left 4 bytes (omega arith))
          ∙ decode-take_32 left
          ∙ decode-write_at_32 xs 0 id (omega (arith, fits)),
      decode-write_at_16 left 4 value
          (omega (arith, length-write_at xs 0 (encode_32_bits_big_endian_8bits id), fits)),
    )
