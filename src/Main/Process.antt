-- ===== src/Main/Process.antt =====
-- `MainHandler::process` and `check_finished_sending`: one call serves the request that waits and sends the
-- response. `process_request` is an argument: what it makes of the handler and of the response that has been
-- prepared, which is the communication handler's own.
pub mod Answers
pub mod Stalling
pub mod Waiting
mod Tests
use scrutiny_embedded.Base.{ℕ, Bool, true, false, not, ◌&&◌, ◌*◌, ◌==◌, List, if◌then◌else◌}
use scrutiny_embedded.Timebase
use scrutiny_embedded.Timebase.{Timebase, get_timestamp, has_expired}
use scrutiny_embedded.Protocol.{Request, Response}
use scrutiny_embedded.Protocol.ResponseCode.{ResponseCode, to_byte}
use scrutiny_embedded.Comm.State.{CommHandler, wait_next_request, is_transmitting}
use scrutiny_embedded.Comm.State
use scrutiny_embedded.Comm.Session
use scrutiny_embedded.Comm.Transmit.{prepare_response, send_response}
use scrutiny_embedded.Datalogging.DataLogger
use scrutiny_embedded.Main.Ownership.{process_loops, process_datalogging_logic}
use scrutiny_embedded.Main.Ownership.Steps.{System}

-- SCRUTINY_REQUEST_MAX_PROCESS_TIME_US * 10, in steps of 100 ns.
abbrev pub max_process_time : ℕ
max_process_time = 100000 * 10

-- `system` holds the datalogger, its loops and `m_datalogging`.
pub record MainHandler (Data : Type 0) : Type 0 where
  pub timebase : Timebase
  pub comm_handler : CommHandler
  pub process_again_timestamp : ℕ
  pub processing_request : Bool
  pub disconnect_pending : Bool
  pub enabled : Bool
  pub process_again_timestamp_taken : Bool
  pub loop_count : ℕ
  pub system : System Data

module _ {Data : Type 0} where
  -- `process_loops` and then `process_datalogging_logic`
  unfoldable pub process_loops_and_logic : System Data → ℕ → System Data
  process_loops_and_logic s loop_count =
      let heard = process_loops loop_count s.loops s.main s.shared in
      let thought = process_datalogging_logic heard.0 heard.1 heard.2 in
      record { loops = thought.0; main = thought.1; shared = heard.2 }

  unfoldable pub check_finished_sending : MainHandler Data → MainHandler Data
  check_finished_sending h =
      let comm = wait_next_request h.timebase h.comm_handler in
      let left = if h.disconnect_pending then Session.disconnect h.timebase comm else comm in
      if h.processing_request && not (is_transmitting (h.comm_handler).state)
      then record h {
        comm_handler = left;
        processing_request = false;
        process_again_timestamp_taken = false;
        disconnect_pending = false;
      }
      else h

  -- What is done with the response, by its code.
  unfoldable pub conclude : MainHandler Data → Response → MainHandler Data
  conclude h response =
      let failed = record response { response_code = to_byte ResponseCode.failure_to_proceed } in
      if response.response_code == to_byte ResponseCode.process_again
      then (if not h.process_again_timestamp_taken
          then record h {
            processing_request = false;
            process_again_timestamp = get_timestamp h.timebase;
            process_again_timestamp_taken = true;
          }
          else if has_expired h.timebase h.process_again_timestamp max_process_time
          then record h {
            comm_handler = (send_response h.comm_handler failed).0;
            processing_request = true;
          }
          else record h { processing_request = false })
      else if response.response_code == to_byte ResponseCode.no_response_to_send
      then record h { processing_request = true }
      else record h {
        comm_handler = (send_response h.comm_handler response).0;
        processing_request = true;
      }

  module _
      (process_request : MainHandler Data → Request → Response → MainHandler Data × Response) where
    unfoldable pub serve : MainHandler Data → MainHandler Data
    unfolding conclude
    serve h =
        let prepared = record h { comm_handler = prepare_response h.comm_handler } in
        let comm = prepared.comm_handler in
        let served = process_request prepared comm.active_request comm.active_response in
        let after = served.0 in
        let comm' = after.comm_handler in
        let stored = record after { comm_handler = record comm' { active_response = served.1 } } in
        let waits = (h.comm_handler).request_received && not h.processing_request in
        if waits then conclude stored served.1 else h

    unfoldable pub process : MainHandler Data → ℕ → MainHandler Data
    unfolding serve check_finished_sending process_loops_and_logic
    process h timestep_100ns =
        let timebase = Timebase.step h.timebase timestep_100ns in
        let system = h.system in
        let shared = system.shared in
        let shared' = record shared { datalogger = DataLogger.reset shared.datalogger } in
        let started = record h {
          timebase = timebase;
          comm_handler = Session.process timebase h.comm_handler;
          system = process_loops_and_logic h.system h.loop_count;
        } in
        let finished = check_finished_sending (serve started) in
        if not h.enabled
        then record h {
          processing_request = false;
          disconnect_pending = false;
          comm_handler = State.reset h.timebase h.comm_handler;
          system = record system { shared = shared' };
        }
        else record finished {
          system = process_loops_and_logic finished.system finished.loop_count;
        }
