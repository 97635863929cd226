-- ===== src/CodecV1/Configure/Roundtrip.antt =====
-- A whole request to configure the datalogger, encoded and decoded.
use scrutiny_embedded.Base.{
  ℕ, ◌+◌, ◌^◌, ◌≤◌, ◌<◌, ◌≡◌, ◌∙◌, refl, ap, arith, List, [], ◌∷◌, ◌++◌, length, drop,
  length-append, append_assoc, some,
}
use scrutiny_embedded.Protocol.{Request}
use scrutiny_embedded.Codecs.{encode_16_bits_big_endian_8bits, encode_32_bits_big_endian_8bits}
use scrutiny_embedded.Codecs.Bytes.{decode-encode}
use scrutiny_embedded.CodecV1.Configure.{
  Decoded, Header, each, decode_operand, decode_operands, decode_item, decode_items, decode_header,
  decode_rest, decode_datalogging_configure_request,
}
use scrutiny_embedded.CodecV1.Configure.Written.{
  encode_operand, encode_item, IsOperand, IsItem, encodes, AllGood, each-Reads,
  decode_operand-Reads, decode_item-Reads,
}
use scrutiny_embedded.Datalogging.Configuration.{Configuration, Operand, max_operands, max_signal}

-- The header, and the request after it.
unfoldable pub encode_header : ℕ → ℕ → Configuration → List ℕ
encode_header loop_id config_id c =
    loop_id ∷ encode_16_bits_big_endian_8bits config_id
    ++ (encode_16_bits_big_endian_8bits c.decimation
        ++ (c.probe_location ∷ encode_32_bits_big_endian_8bits c.timeout_100ns
            ++ ((c.trigger).condition ∷ encode_32_bits_big_endian_8bits (c.trigger).hold_time_100ns
                ++ ((c.trigger).operand_count ∷ []))))

abbrev pub operand_bytes : Configuration → List ℕ
operand_bytes c = encodes encode_operand IsOperand (c.trigger).operands

abbrev pub item_bytes : Configuration → List ℕ
item_bytes c = encodes encode_item IsItem c.items_to_log

unfoldable pub encode_configure : ℕ → ℕ → Configuration → List ℕ
unfolding encode_header
encode_configure loop_id config_id c =
    encode_header loop_id config_id c ++ (operand_bytes c ++ (c.items_count ∷ item_bytes c))

-- Everything fits its place in the request.
pub record IsWritable (loop_id config_id : ℕ) (c : Configuration) : Type 0 where
  pub loop : loop_id < 2 ^ 8
  pub id : config_id < 2 ^ 16
  pub decimation : c.decimation < 2 ^ 16
  pub probe_location : c.probe_location < 2 ^ 8
  pub timeout : c.timeout_100ns < 2 ^ 32
  pub hold_time : (c.trigger).hold_time_100ns < 2 ^ 32
  pub operands : AllGood encode_operand IsOperand (c.trigger).operands
  pub operand_count : (c.trigger).operand_count ≡ length (c.trigger).operands
  pub few : length (c.trigger).operands ≤ max_operands
  pub items : AllGood encode_item IsItem c.items_to_log
  pub items_count : c.items_count ≡ length c.items_to_log
  pub not_many : length c.items_to_log ≤ max_signal

-- The header that a configuration is decoded to.
abbrev header : ℕ → ℕ → Configuration → Header
header loop_id config_id c = record {
  loop_id = loop_id;
  config_id = config_id;
  decimation = c.decimation;
  probe_location = c.probe_location;
  timeout_100ns = c.timeout_100ns;
  condition = (c.trigger).condition;
  hold_time_100ns = (c.trigger).hold_time_100ns;
  operand_count = (c.trigger).operand_count;
}

read_header :
    (loop_id config_id : ℕ) (c : Configuration) (rest : List ℕ)
    → IsWritable loop_id config_id c
    → decode_header (encode_header loop_id config_id c ++ rest) ≡ header loop_id config_id c
unfolding decode_header encode_header encode_16_bits_big_endian_8bits
    encode_32_bits_big_endian_8bits
read_header loop_id config_id c rest w =
    let after_hold = (c.trigger).operand_count ∷ rest in
    let after_timeout =
      (c.trigger).condition ∷ encode_32_bits_big_endian_8bits (c.trigger).hold_time_100ns
      ++ after_hold in
    let after_decimation =
      c.probe_location ∷ encode_32_bits_big_endian_8bits c.timeout_100ns ++ after_timeout in
    let after_id = encode_16_bits_big_endian_8bits c.decimation ++ after_decimation in
    let id = (decode-encode config_id after_id).0 in
    let decimation = (decode-encode c.decimation after_decimation).0 in
    let timeout = (decode-encode c.timeout_100ns after_timeout).2 in
    let hold = (decode-encode (c.trigger).hold_time_100ns after_hold).2 in
    ground (arith, id, decimation, timeout, hold, w)

drop_header :
    (loop_id config_id : ℕ) (c : Configuration) (rest : List ℕ)
    → drop 16 (encode_header loop_id config_id c ++ rest) ≡ rest
unfolding encode_header encode_16_bits_big_endian_8bits encode_32_bits_big_endian_8bits
drop_header loop_id config_id c rest = refl

length_header :
    (loop_id config_id : ℕ) (c : Configuration) → length (encode_header loop_id config_id c) ≡ 16
unfolding encode_header encode_16_bits_big_endian_8bits encode_32_bits_big_endian_8bits
length_header loop_id config_id c = refl

read_rest :
    (loop_id config_id : ℕ) (c : Configuration) (cursor n : ℕ) (rest : List ℕ)
    → IsWritable loop_id config_id c
    → n ≡ cursor + 1 + length (item_bytes c)
    → decode_rest n
        (header loop_id config_id c)
        (c.trigger).operands
        cursor
        (c.items_count ∷ (item_bytes c ++ rest))
      ≡ Decoded.decoded loop_id config_id c
unfolding decode_rest decode_items
read_rest loop_id config_id c cursor n rest w size =
    let read =
      each-Reads encode_item IsItem n (decode_item n) (decode_item-Reads n) c.items_to_log
        (cursor + 1) rest w.items (omega (arith, size)) in
    ground (arith, read, size, w)

-- The decoding is that of the rest, once the header and the operands are read.
decode_parts :
    (request : Request) (data' : List ℕ) (h : Header) (operands : List Operand) (cursor : ℕ)
    (buf buf' : List ℕ)
    → 16 ≤ request.data_length
    → h.operand_count ≤ max_operands
    → decode_header data' ≡ h
    → drop 16 data' ≡ buf
    → each (decode_operand request.data_length) h.operand_count 16 buf
      ≡ some (operands, cursor, buf')
    → decode_datalogging_configure_request request data'
      ≡ decode_rest request.data_length h operands cursor buf'
unfolding decode_datalogging_configure_request decode_operands
decode_parts request data' h operands cursor buf buf' long few head behind read =
    ground (arith, long, few, head, behind, read)

-- The bytes that a configuration is written as, with its loop and its identifier, in a request as long as they are
-- and whatever follows them in the buffer, are decoded to the same configuration, loop and identifier,
-- where each part fits its place.
pub decode_configure-encode_configure :
    (request : Request) (loop_id config_id : ℕ) (c : Configuration) (rest : List ℕ)
    → IsWritable loop_id config_id c
    → request.data_length ≡ length (encode_configure loop_id config_id c)
    → decode_datalogging_configure_request request (encode_configure loop_id config_id c ++ rest)
      ≡ Decoded.decoded loop_id config_id c
unfolding encode_configure
decode_configure-encode_configure request loop_id config_id c rest w size =
    let n = request.data_length in
    let items = c.items_count ∷ item_bytes c in
    let total = length-append (encode_header loop_id config_id c) (operand_bytes c ++ items) in
    let parts = length-append (operand_bytes c) items in
    let head_size = length_header loop_id config_id c in
    let left = operand_bytes c ++ (items ++ rest) in
    let joined =
      append_assoc (encode_header loop_id config_id c) (operand_bytes c ++ items) rest
      ∙ ap (λ t. encode_header loop_id config_id c ++ t)
          (append_assoc (operand_bytes c) items rest) in
    let head = read_header loop_id config_id c left w in
    let behind = drop_header loop_id config_id c left in
    let operands =
      each-Reads encode_operand IsOperand n (decode_operand n) (decode_operand-Reads n)
        (c.trigger).operands 16 (items ++ rest) w.operands
        (omega (arith, total, parts, head_size, size)) in
    let more =
      read_rest loop_id config_id c (16 + length (operand_bytes c)) n rest w
        (omega (arith, total, parts, head_size, size)) in
    let counted = ap (λ k. each (decode_operand n) k 16 left) w.operand_count ∙ operands in
    decode_parts request (encode_configure loop_id config_id c ++ rest) (header loop_id config_id c)
      (c.trigger).operands (16 + length (operand_bytes c)) left (items ++ rest)
      (omega (arith, total, head_size, size)) (omega (arith, w.operand_count, w.few))
      (ap decode_header joined ∙ head) (ap (drop 16) joined ∙ behind) counted
    ∙ more
