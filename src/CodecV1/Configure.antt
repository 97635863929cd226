-- ===== src/CodecV1/Configure.antt =====
-- `CodecV1_0::decode_datalogging_configure_request` of lib/src/protocol/scrutiny_codec_v1_0.cpp. `cursor` is the
-- place in the request's data and `buf` its bytes from there on. The cursor stays below 2 ^ 16, as
-- the counts of operands and items are checked. What a decoding that fails leaves in the
-- configuration is not modelled, nor the elements of its two arrays beyond their counts.
pub mod Roundtrip
pub mod Shape
pub mod Written
mod Tests
use scrutiny_embedded.Base.{
  ℕ, zero, suc, ◌+◌, ◌%◌, ◌^◌, List, [], ◌∷◌, ltb, ◌==◌, if◌then◌else◌, drop, low_bits, Option,
  none, some,
}
use scrutiny_embedded.Protocol.{Request}
use scrutiny_embedded.Protocol.ResponseCode.{ResponseCode}
use scrutiny_embedded.Codecs.{
  decode_16_bits_big_endian_8bits, decode_32_bits_big_endian_8bits, decode_float_big_endian_8bits,
}
use scrutiny_embedded.Codecs.Address.{decode_address_big_endian_8bits}
use scrutiny_embedded.CodecV1.{addr_size}
use scrutiny_embedded.Datalogging.Configuration.{
  Operand, LoggableItem, Configuration, max_operands, max_signal,
}

-- The byte at the cursor.
abbrev pub first : List ℕ → ℕ
first [] = 0
first (b ∷ _) = b

-- OperandType, and LoggableType below.
abbrev pub operand_literal : ℕ
operand_literal = 0

abbrev pub operand_var : ℕ
operand_var = 1

abbrev pub operand_varbit : ℕ
operand_varbit = 2

abbrev pub operand_rpv : ℕ
operand_rpv = 3

abbrev pub loggable_memory : ℕ
loggable_memory = 0

abbrev pub loggable_rpv : ℕ
loggable_rpv = 1

abbrev pub loggable_time : ℕ
loggable_time = 2

-- Both loops: so many rounds, from the cursor on, where one round gives an element.
unfoldable pub each {ℓ} :
    {A : Type ℓ}
    → (ℕ → List ℕ → Option (A × ℕ × List ℕ))
    → ℕ
    → ℕ
    → List ℕ
    → Option (List A × ℕ × List ℕ)
each round zero cursor buf = some ([], cursor, buf)
each round (suc count) cursor buf = elim (round cursor buf) [
  | none ↦ none
  | some (x, cursor', buf') ↦ elim (each round count cursor' buf') [
    | none ↦ none
    | some (xs, cursor'', buf'') ↦ some (x ∷ xs, cursor'', buf'')
  ]
]

module _ (data_length : ℕ) where
  -- One round of the loop over the operands: the operand, with the cursor and the bytes after it. `none` is
  -- InvalidRequest.
  unfoldable pub decode_operand : ℕ → List ℕ → Option (Operand × ℕ × List ℕ)
  decode_operand cursor buf =
      let optype = first buf in
      let at = cursor + 1 in
      let here = drop 1 buf in
      if ltb data_length (cursor + 1)
      then none
      else if optype == operand_literal
      then (if ltb data_length (at + 4)
          then none
          else some (Operand.literal (decode_float_big_endian_8bits here), at + 4, drop 4 here))
      else if optype == operand_rpv
      then (if ltb data_length (at + 2)
          then none
          else some (Operand.rpv (decode_16_bits_big_endian_8bits here), at + 2, drop 2 here))
      else if optype == operand_var
      then (if ltb data_length (at + 1 + addr_size)
          then none
          else some (
            Operand.var (decode_address_big_endian_8bits addr_size (drop 1 here)) (first here),
            at + 1 + addr_size,
            drop addr_size (drop 1 here),
          ))
      else if optype == operand_varbit
      then (if ltb data_length (at + 3 + addr_size)
          then none
          else (let behind = drop addr_size (drop 1 here) in
              some (
                Operand.varbit (decode_address_big_endian_8bits addr_size (drop 1 here))
                    (first here) (low_bits (first behind) 8) (low_bits (first (drop 1 behind)) 8),
                at + 3 + addr_size,
                drop 2 behind,
              )))
      else none

  unfoldable pub decode_operands : ℕ → ℕ → List ℕ → Option (List Operand × ℕ × List ℕ)
  unfolding each decode_operand
  decode_operands = each decode_operand

  unfoldable pub decode_item : ℕ → List ℕ → Option (LoggableItem × ℕ × List ℕ)
  decode_item cursor buf =
      let type = first buf in
      let at = cursor + 1 in
      let here = drop 1 buf in
      let behind = drop addr_size here in
      if ltb data_length (cursor + 1)
      then none
      else if type == loggable_memory
      then (if ltb data_length (at + addr_size + 1)
          then none
          else some (
            LoggableItem.memory (decode_address_big_endian_8bits addr_size here) (first behind),
            at + addr_size + 1,
            drop 1 behind,
          ))
      else if type == loggable_rpv
      then (if ltb data_length (at + 2)
          then none
          else some (LoggableItem.rpv (decode_16_bits_big_endian_8bits here), at + 2, drop 2 here))
      else if type == loggable_time
      then some (LoggableItem.time, at, here)
      else none

  unfoldable pub decode_items : ℕ → ℕ → List ℕ → Option (List LoggableItem × ℕ × List ℕ)
  unfolding each decode_item
  decode_items = each decode_item

-- The code of a decoding that fails; the loop, the identifier and the configuration of one that does not.
pub data Decoded : Type 0 where
  failed : (code : ResponseCode) → Decoded
  decoded : (loop_id config_id : ℕ) (config : Configuration) → Decoded

-- The part of the request before the operands.
pub record Header : Type 0 where
  pub loop_id : ℕ
  pub config_id : ℕ
  pub decimation : ℕ
  pub probe_location : ℕ
  pub timeout_100ns : ℕ
  pub condition : ℕ
  pub hold_time_100ns : ℕ
  pub operand_count : ℕ

unfoldable pub decode_header : List ℕ → Header
decode_header data' = record {
  loop_id = low_bits (first data') 8;
  config_id = decode_16_bits_big_endian_8bits (drop 1 data');
  decimation = decode_16_bits_big_endian_8bits (drop 3 data');
  probe_location = low_bits (first (drop 5 data')) 8;
  timeout_100ns = decode_32_bits_big_endian_8bits (drop 6 data');
  condition = first (drop 10 data');
  hold_time_100ns = decode_32_bits_big_endian_8bits (drop 11 data');
  operand_count = low_bits (first (drop 15 data')) 8;
}

abbrev pub configuration : Header → List Operand → ℕ → List LoggableItem → Configuration
configuration h operands items_count items = record {
  items_to_log = items;
  trigger = record {
    operands = operands;
    hold_time_100ns = h.hold_time_100ns;
    operand_count = h.operand_count;
    condition = h.condition;
  };
  timeout_100ns = h.timeout_100ns;
  decimation = h.decimation;
  items_count = items_count;
  probe_location = h.probe_location;
}

-- The request from the count of the items on.
unfoldable pub decode_rest : ℕ → Header → List Operand → ℕ → List ℕ → Decoded
unfolding decode_items
decode_rest data_length h operands cursor buf =
    let items_count = low_bits (first buf) 8 in
    if ltb data_length (cursor + 1)
    then Decoded.failed ResponseCode.invalid_request
    else if ltb max_signal items_count
    then Decoded.failed ResponseCode.overflow
    else elim (decode_items data_length items_count (cursor + 1) (drop 1 buf)) [
      | none ↦ Decoded.failed ResponseCode.invalid_request
      | some (items, cursor', _) ↦
          if cursor' == data_length
          then Decoded.decoded h.loop_id h.config_id (configuration h operands items_count items)
          else Decoded.failed ResponseCode.invalid_request
    ]

unfoldable pub decode_datalogging_configure_request : Request → List ℕ → Decoded
unfolding decode_header decode_operands decode_rest
decode_datalogging_configure_request request data' =
    let h = decode_header data' in
    if ltb request.data_length 16
    then Decoded.failed ResponseCode.invalid_request
    else if ltb max_operands h.operand_count
    then Decoded.failed ResponseCode.overflow
    else elim (decode_operands request.data_length h.operand_count 16 (drop 16 data')) [
      | none ↦ Decoded.failed ResponseCode.invalid_request
      | some (operands, cursor, buf) ↦ decode_rest request.data_length h operands cursor buf
    ]
