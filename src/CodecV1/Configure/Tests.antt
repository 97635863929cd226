-- ===== src/CodecV1/Configure/Tests.antt =====
-- A request to configure the datalogger: two operands, and two items to log.
use scrutiny_embedded.Base.{[], ◌∷◌, ◌++◌, ◌≡◌, refl, arith, length}
use scrutiny_embedded.Protocol.{Request}
use scrutiny_embedded.Protocol.ResponseCode.{ResponseCode}
use scrutiny_embedded.Codecs.{encode_16_bits_big_endian_8bits, encode_32_bits_big_endian_8bits}
use scrutiny_embedded.Codecs.Address.{encode_address_big_endian_8bits}
use scrutiny_embedded.CodecV1.Configure.Written.{encode_operand, encode_item}
use scrutiny_embedded.CodecV1.Configure.{Decoded, decode_datalogging_configure_request}
use scrutiny_embedded.CodecV1.Configure.Shape.{Shape, decode_datalogging_configure_request-Shape}
use scrutiny_embedded.CodecV1.Configure.Roundtrip.{
  IsWritable, encode_configure, decode_configure-encode_configure,
}
use scrutiny_embedded.Datalogging.Configuration.{Configuration, Operand, LoggableItem}

abbrev sample : Configuration
sample = record {
  items_to_log = LoggableItem.memory 4660 4 ∷ LoggableItem.time ∷ [];
  trigger = record {
    operands = Operand.varbit 65536 18 3 2 ∷ Operand.literal 1065353216 ∷ [];
    hold_time_100ns = 100;
    operand_count = 2;
    condition = 1;
  };
  timeout_100ns = 70000;
  decimation = 2;
  items_count = 2;
  probe_location = 128;
}

abbrev request : Request
request = record {
  command_id = 5;
  subfunction_id = 2;
  data_length = 45;
  data_max_length = 64;
  crc = 0;
}

sample-IsWritable : IsWritable 1 0xABCD sample
sample-IsWritable = record {
  loop = omega arith;
  id = omega arith;
  decimation = omega arith;
  probe_location = omega arith;
  timeout = omega arith;
  hold_time = omega arith;
  operands = ((omega arith, omega arith, omega arith), (omega arith, refl));
  operand_count = refl;
  few = omega arith;
  items = (omega arith, (refl, refl));
  items_count = refl;
  not_many = omega arith;
}

sample_size : request.data_length ≡ length (encode_configure 1 0xABCD sample)
unfolding encode_configure encode_operand encode_item encode_16_bits_big_endian_8bits
    encode_32_bits_big_endian_8bits encode_address_big_endian_8bits
sample_size = refl

-- A request without a byte for its header.
short_header :
    decode_datalogging_configure_request (record request { data_length = 15 }) []
    ≡ Decoded.failed ResponseCode.invalid_request
unfolding decode_datalogging_configure_request
short_header = refl

decode_configure-encode_configure_example :
    decode_datalogging_configure_request request (encode_configure 1 0xABCD sample ++ (7 ∷ []))
    ≡ Decoded.decoded 1 0xABCD sample
decode_configure-encode_configure_example =
    decode_configure-encode_configure request 1 0xABCD sample (7 ∷ []) sample-IsWritable sample_size

decode_datalogging_configure_request-Shape_example :
    Shape request (decode_datalogging_configure_request request (encode_configure 1 0xABCD sample))
decode_datalogging_configure_request-Shape_example =
    decode_datalogging_configure_request-Shape request (encode_configure 1 0xABCD sample)
