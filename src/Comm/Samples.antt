-- ===== src/Comm/Samples.antt =====
-- A communication handler before its start, for tests.
use scrutiny_embedded.Base.{ℕ, false, List, [], replicate}
use scrutiny_embedded.Timebase.{Timebase}
use scrutiny_embedded.Protocol.{RxError, TxError}
use scrutiny_embedded.Comm.State.{CommHandler, State, RxFsmState}

abbrev pub blank : CommHandler
blank = record {
  heartbeat_timestamp = 0;
  session_id = 0;
  last_heartbeat_challenge = 0;
  state = State.idle;
  enabled = false;
  session_active = false;
  first_heartbeat_received = false;
  active_request = record {
    command_id = 0;
    subfunction_id = 0;
    data_length = 0;
    data_max_length = 0;
    crc = 0;
  };
  last_rx_timestamp = 0;
  rx_buffer = [];
  rx_buffer_size = 0;
  tx_buffer_size = 0;
  request_received = false;
  rx_state = RxFsmState.wait_for_command;
  rx_error = RxError.none;
  per_state_data = 0;
  active_response = record {
    command_id = 0;
    subfunction_id = 0;
    response_code = 0;
    data_length = 0;
    data_max_length = 0;
    payload = [];
    crc = 0;
  };
  crc = 0;
  nbytes_to_send = 0;
  nbytes_sent = 0;
  tx_error = TxError.none;
  session_counter = 0;
}

abbrev pub noon : Timebase
noon = record { time_100ns = 4294967000 }

abbrev pub buffer : List ℕ
buffer = replicate 32 0
