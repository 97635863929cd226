-- ===== src/Comm/State.antt =====
-- The state of the communication handler, its reset functions and its start.
use scrutiny_embedded.Base.{ℕ, Bool, true, false, List, ◌||◌, ltb, if◌then◌else◌}
use scrutiny_embedded.Timebase.{Timebase, get_timestamp}
use scrutiny_embedded.Protocol.{
  Request, Response, RxError, TxError, reset_request, reset_response, minimum_rx_buffer_size,
  minimum_tx_buffer_size, maximum_rx_buffer_size, maximum_tx_buffer_size,
}

pub data RxFsmState : Type 0 where
  wait_for_command wait_for_subfunction wait_for_length wait_for_data wait_for_crc : RxFsmState
  wait_for_process error : RxFsmState

pub data State : Type 0 where
  idle receiving transmitting : State

-- `per_state_data` is the union of three counters; each state of the reception reads only the one
-- that was set when it was entered. The request's data is `rx_buffer`, the response's is its
-- payload. The static `s_session_counter` is a field, and the clock an argument of each operation.
pub record CommHandler : Type 0 where
  pub heartbeat_timestamp : ℕ
  pub session_id : ℕ
  pub last_heartbeat_challenge : ℕ
  pub state : State
  pub enabled : Bool
  pub session_active : Bool
  pub first_heartbeat_received : Bool
  pub active_request : Request
  pub last_rx_timestamp : ℕ
  pub rx_buffer : List ℕ
  pub rx_buffer_size : ℕ
  pub tx_buffer_size : ℕ
  pub request_received : Bool
  pub rx_state : RxFsmState
  pub rx_error : RxError
  pub per_state_data : ℕ
  pub active_response : Response
  pub crc : ℕ
  pub nbytes_to_send : ℕ
  pub nbytes_sent : ℕ
  pub tx_error : TxError
  pub session_counter : ℕ

abbrev pub is_transmitting : State → Bool
is_transmitting State.transmitting = true
is_transmitting _ = false

abbrev pub is_receiving : State → Bool
is_receiving State.receiving = true
is_receiving _ = false

abbrev pub is_idle : State → Bool
is_idle State.idle = true
is_idle _ = false

abbrev pub is_error : RxFsmState → Bool
is_error RxFsmState.error = true
is_error _ = false

unfoldable pub reset_tx : CommHandler → CommHandler
unfolding reset_response
reset_tx h = record h {
  active_response = reset_response h.active_response;
  nbytes_to_send = 0;
  nbytes_sent = 0;
  tx_error = TxError.none;
  state = if is_transmitting h.state then State.idle else h.state;
}

module _ (timebase : Timebase) where
  unfoldable pub reset_rx : CommHandler → CommHandler
  unfolding get_timestamp reset_request
  reset_rx h = record h {
    active_request = reset_request h.active_request;
    rx_state = RxFsmState.wait_for_command;
    request_received = false;
    rx_error = RxError.none;
    last_rx_timestamp = get_timestamp timebase;
    crc = 0;
    state = if is_receiving h.state then State.idle else h.state;
  }

  unfoldable pub wait_next_request : CommHandler → CommHandler
  unfolding reset_rx
  wait_next_request h = reset_rx h

  unfoldable pub reset : CommHandler → CommHandler
  unfolding reset_rx reset_tx get_timestamp
  reset h =
      let h' = record h {
        state = State.idle;
        last_heartbeat_challenge = 0;
        first_heartbeat_received = false;
        session_id = 0;
        session_active = false;
      } in
      if h.enabled
      then reset_tx (reset_rx (record h' { heartbeat_timestamp = get_timestamp timebase }))
      else h'

  -- The buffers hold what the integrator's memory held. `h` is the object before its start.
  unfoldable pub init : CommHandler → List ℕ → ℕ → List ℕ → ℕ → ℕ → CommHandler
  unfolding reset
  init h rx_buffer rx_buffer_size tx_buffer tx_buffer_size session_counter_seed =
      let bad_rx =
        ltb rx_buffer_size minimum_rx_buffer_size || ltb maximum_rx_buffer_size rx_buffer_size in
      let bad_tx =
        ltb tx_buffer_size minimum_tx_buffer_size || ltb maximum_tx_buffer_size tx_buffer_size in
      let req = h.active_request in
      let resp = h.active_response in
      reset (record h {
        rx_buffer = rx_buffer;
        rx_buffer_size = rx_buffer_size;
        tx_buffer_size = tx_buffer_size;
        session_counter = session_counter_seed;
        active_request = record req { data_max_length = rx_buffer_size };
        active_response = record resp { payload = tx_buffer; data_max_length = tx_buffer_size };
        enabled = if bad_tx then false else if bad_rx then false else true;
        crc = 0;
      })
