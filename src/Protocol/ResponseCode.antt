-- ===== src/Protocol/ResponseCode.antt =====
-- `ResponseCode` of lib/inc/protocol/scrutiny_protocol_definitions.hpp.
use scrutiny_embedded.Base.{ℕ, Bool, true, false}

pub data ResponseCode : Type 0 where
  ok invalid_request unsupported_feature overflow busy failure_to_proceed : ResponseCode
  forbidden no_response_to_send process_again : ResponseCode

-- The value of the enumerator.
unfoldable pub to_byte : ResponseCode → ℕ
to_byte ResponseCode.ok = 0
to_byte ResponseCode.invalid_request = 1
to_byte ResponseCode.unsupported_feature = 2
to_byte ResponseCode.overflow = 3
to_byte ResponseCode.busy = 4
to_byte ResponseCode.failure_to_proceed = 5
to_byte ResponseCode.forbidden = 6
to_byte ResponseCode.no_response_to_send = 0xFE
to_byte ResponseCode.process_again = 0xFF

-- `code == ResponseCode::OK`
abbrev pub is_ok : ResponseCode → Bool
is_ok ResponseCode.ok = true
is_ok _ = false

abbrev pub is_process_again : ResponseCode → Bool
is_process_again ResponseCode.process_again = true
is_process_again _ = false

abbrev pub is_no_response_to_send : ResponseCode → Bool
is_no_response_to_send ResponseCode.no_response_to_send = true
is_no_response_to_send _ = false
