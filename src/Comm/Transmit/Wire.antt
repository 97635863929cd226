-- ===== src/Comm/Transmit/Wire.antt =====
-- The format of a response on the wire.
use scrutiny_embedded.Base.{
  ℕ, List, [], ◌∷◌, ◌++◌, ◌-◌, ◌≤◌, length, take, u8, ◌>>>◌, low_bits, big_endian32, bit_or,
}
use scrutiny_embedded.Protocol.{Response}
use scrutiny_embedded.Tools.Crc.{crc32}
use scrutiny_embedded.Comm.Transmit.{response_header}

-- The bytes of a response that carries its checksum.
abbrev pub response_wire : Response → List ℕ
response_wire r = response_header r ++ (take r.data_length r.payload ++ big_endian32 r.crc)

-- The payload is in the buffer, and the sizes fit 16 bits.
pub record Sendable (r : Response) : Type 0 where
  pub stored : r.data_length ≤ length r.payload
  pub small : r.data_length ≤ 0xFFFF - 16

-- The bytes that a response stands for, apart from the code: its command marked as an answer, the
-- subfunction, the code, the length, the data and the checksum of all of these.
abbrev pub answer_header : Response → List ℕ
answer_header r =
    u8 (bit_or r.command_id 0x80)
    ∷ u8 r.subfunction_id
    ∷ u8 r.response_code
    ∷ low_bits (r.data_length >>> 8) 8
    ∷ low_bits r.data_length 8
    ∷ []

abbrev pub answer : Response → List ℕ
answer r =
    let text = answer_header r ++ take r.data_length r.payload in
    text ++ big_endian32 (crc32 text 0)
