-- ===== src/CodecV1/Configure/Written.antt =====
-- The bytes of a request to configure the datalogger, and that they are decoded to what they were made of.
use scrutiny_embedded.Base.{
  ℕ, true, false, ◌+◌, ◌^◌, ◌≤◌, ◌<◌, ◌≡◌, refl, ap, arith, List, [], ◌∷◌, ◌++◌, length,
  append_assoc, length-append, Option, some, inr,
}
use scrutiny_embedded.Codecs.{
  encode_16_bits_big_endian_8bits, encode_32_bits_big_endian_8bits, decode_float_big_endian_8bits,
}
use scrutiny_embedded.Codecs.Bytes.{decode-encode}
use scrutiny_embedded.Codecs.Address.{
  encode_address_big_endian_8bits, decode_address-encode_address,
}
use scrutiny_embedded.CodecV1.{addr_size}
use scrutiny_embedded.CodecV1.Configure.{
  each, decode_operand, decode_item, operand_literal, operand_var, operand_varbit, operand_rpv,
  loggable_memory, loggable_rpv, loggable_time,
}
use scrutiny_embedded.Datalogging.Configuration.{Operand, LoggableItem}

unfoldable pub encode_operand : Operand → List ℕ
encode_operand (Operand.literal val) = operand_literal ∷ encode_32_bits_big_endian_8bits val
encode_operand (Operand.var addr datatype) =
    operand_var ∷ datatype ∷ encode_address_big_endian_8bits addr_size addr
encode_operand (Operand.varbit addr datatype bitoffset bitsize) =
    operand_varbit ∷ datatype ∷ encode_address_big_endian_8bits addr_size addr
    ++ (bitoffset ∷ bitsize ∷ [])
encode_operand (Operand.rpv id) = operand_rpv ∷ encode_16_bits_big_endian_8bits id
encode_operand Operand.invalid = []

unfoldable pub encode_item : LoggableItem → List ℕ
encode_item (LoggableItem.memory address size) =
    loggable_memory ∷ encode_address_big_endian_8bits addr_size address ++ (size ∷ [])
encode_item (LoggableItem.rpv id) = loggable_rpv ∷ encode_16_bits_big_endian_8bits id
encode_item LoggableItem.time = loggable_time ∷ []
encode_item LoggableItem.invalid = []

-- The members fit their types, and the type is one that there is.
abbrev pub IsOperand : Operand → Type 0
IsOperand (Operand.literal val) = val < 2 ^ 32
IsOperand (Operand.var addr _) = addr < 2 ^ 64
IsOperand (Operand.varbit addr _ bitoffset bitsize) =
    (addr < 2 ^ 64) × (bitoffset < 2 ^ 8) × (bitsize < 2 ^ 8)
IsOperand (Operand.rpv id) = id < 2 ^ 16
IsOperand Operand.invalid = true ≡ false

abbrev pub IsItem : LoggableItem → Type 0
IsItem (LoggableItem.memory address _) = address < 2 ^ 64
IsItem (LoggableItem.rpv id) = id < 2 ^ 16
IsItem LoggableItem.time = true ≡ true
IsItem LoggableItem.invalid = true ≡ false

module _ {A : Type 0} (encode : A → List ℕ) (Good : A → Type 0) where
  abbrev pub encodes : List A → List ℕ
  encodes [] = []
  encodes (x ∷ xs) = encode x ++ encodes xs

  abbrev pub AllGood : List A → Type 0
  AllGood [] = true ≡ true
  AllGood (x ∷ xs) = Good x × AllGood xs

  -- A round reads the encoding of an element, and stops behind it.
  abbrev pub Reads : ℕ → (ℕ → List ℕ → Option (A × ℕ × List ℕ)) → Type 0
  Reads n round =
      (x : A) (cursor : ℕ) (rest : List ℕ)
      → Good x
      → cursor + length (encode x) ≤ n
      → round cursor (encode x ++ rest) ≡ some (x, cursor + length (encode x), rest)

  pub each-Reads :
      (n : ℕ) (round : ℕ → List ℕ → Option (A × ℕ × List ℕ))
      → Reads n round
      → (xs : List A) (cursor : ℕ) (rest : List ℕ) → AllGood xs
      → cursor + length (encodes xs) ≤ n
      → each round (length xs) cursor (encodes xs ++ rest)
        ≡ some (xs, cursor + length (encodes xs), rest)
  unfolding each
  each-Reads n round reads [] cursor rest good fits = ap (λ k. some ([], k, rest)) (omega arith)
  each-Reads n round reads (x ∷ xs) cursor rest (good, goods) fits =
      let total = length-append (encode x) (encodes xs) in
      let one = reads x cursor (encodes xs ++ rest) good (omega (arith, total, fits)) in
      let more =
        each-Reads n round reads xs (cursor + length (encode x)) rest goods
          (omega (arith, total, fits)) in
      rw (append_assoc (encode x) (encodes xs) rest) (ground (arith, one, more, total))

pub decode_operand-Reads : (n : ℕ) → Reads encode_operand IsOperand n (decode_operand n)
unfolding decode_operand encode_operand decode_float_big_endian_8bits
    encode_32_bits_big_endian_8bits encode_16_bits_big_endian_8bits encode_address_big_endian_8bits
decode_operand-Reads n (Operand.literal val) cursor rest good fits =
    let e = (decode-encode val rest).2 in ground (arith, e, good, fits)
decode_operand-Reads n (Operand.var addr datatype) cursor rest good fits =
    let e = decode_address-encode_address 8 addr rest (inr (inr (inr refl))) good in
    ground (arith, e, good, fits)
decode_operand-Reads n (Operand.varbit addr datatype bitoffset bitsize) cursor rest good fits =
    let e =
      decode_address-encode_address 8 addr (bitoffset ∷ bitsize ∷ rest) (inr (inr (inr refl)))
        good.0 in
    ground (arith, e, good.1, good.2, fits)
decode_operand-Reads n (Operand.rpv id) cursor rest good fits =
    let e = (decode-encode id rest).0 in ground (arith, e, good, fits)
decode_operand-Reads n Operand.invalid cursor rest good fits = absurd (ground (arith, good))

pub decode_item-Reads : (n : ℕ) → Reads encode_item IsItem n (decode_item n)
unfolding decode_item encode_item encode_16_bits_big_endian_8bits encode_address_big_endian_8bits
decode_item-Reads n (LoggableItem.memory address size) cursor rest good fits =
    let e = decode_address-encode_address 8 address (size ∷ rest) (inr (inr (inr refl))) good in
    ground (arith, e, good, fits)
decode_item-Reads n (LoggableItem.rpv id) cursor rest good fits =
    let e = (decode-encode id rest).0 in ground (arith, e, good, fits)
decode_item-Reads n LoggableItem.time cursor rest good fits = ground (arith, fits)
decode_item-Reads n LoggableItem.invalid cursor rest good fits = absurd (ground (arith, good))
