-- ===== src/Main/Process/Stalling.antt =====
-- One call of `process` in which `process_request` answers a request with ProcessAgain.
use scrutiny_embedded.Base.{ℕ, true, false, ◌+◌, ◌^◌, ◌<◌, ◌≡◌, arith}
use scrutiny_embedded.Timebase
use scrutiny_embedded.Timebase.{Timebase, has_expired, elapsed_since}
use scrutiny_embedded.Protocol.{Request, Response}
use scrutiny_embedded.Protocol.ResponseCode.{ResponseCode, to_byte}
use scrutiny_embedded.Comm.State.{CommHandler, State}
use scrutiny_embedded.Comm.Session
use scrutiny_embedded.Comm.Session.{heartbeat_timeout}
use scrutiny_embedded.Comm.Transmit.{prepare_response, send_response, add_crc}
use scrutiny_embedded.Main.Process.Answers.{Waits, served}
use scrutiny_embedded.Main.Process.{
  MainHandler, max_process_time, process, serve, conclude, check_finished_sending,
  process_loops_and_logic,
}

module _ {Data : Type 0} where
  -- The handler as a call of `process` gives the request to `process_request`, and what is given with it.
  abbrev pub started : MainHandler Data → ℕ → MainHandler Data
  started h d =
      let timebase = Timebase.step h.timebase d in
      record h {
        timebase = timebase;
        comm_handler = prepare_response (Session.process timebase h.comm_handler);
        system = process_loops_and_logic h.system h.loop_count;
      }

  abbrev pub request : MainHandler Data → ℕ → Request
  request h d = ((started h d).comm_handler).active_request

  abbrev pub response : MainHandler Data → ℕ → Response
  response h d = ((started h d).comm_handler).active_response

-- In this call `process_request` answers the request with ProcessAgain, without data, and leaves what is its
-- caller's; it may do anything to the datalogger and its loops.
pub record Stalls {Data : Type 0}
    (process_request : MainHandler Data → Request → Response → MainHandler Data × Response)
    (h : MainHandler Data) (d : ℕ) : Type 0 where
  pub code :
      (process_request (started h d) (request h d) (response h d)).1.response_code
      ≡ to_byte ResponseCode.process_again
  pub empty : (process_request (started h d) (request h d) (response h d)).1.data_length ≡ 0
  pub comm_handler :
      (process_request (started h d) (request h d) (response h d)).0.comm_handler
      ≡ (started h d).comm_handler
  pub timebase :
      (process_request (started h d) (request h d) (response h d)).0.timebase
      ≡ (started h d).timebase
  pub timestamp :
      (process_request (started h d) (request h d) (response h d)).0.process_again_timestamp
      ≡ h.process_again_timestamp
  pub taken :
      (process_request (started h d) (request h d) (response h d)).0.process_again_timestamp_taken
      ≡ h.process_again_timestamp_taken
  pub enabled : (process_request (started h d) (request h d) (response h d)).0.enabled ≡ h.enabled

-- The request has been asked to be processed again: `waited` ago for the first time; the last heartbeat of a
-- session was `beaten` ago.
pub record IsAgain {Data : Type 0} (h : MainHandler Data) (waited beaten : ℕ) : Type 0 where
  pub enabled : h.enabled ≡ true
  pub unserved : h.processing_request ≡ false
  pub taken : h.process_again_timestamp_taken ≡ true
  pub received : (h.comm_handler).request_received ≡ true
  pub comm_enabled : (h.comm_handler).enabled ≡ true
  pub idle : (h.comm_handler).state ≡ State.idle
  pub word : h.process_again_timestamp < 2 ^ 32
  pub beat_word : (h.comm_handler).heartbeat_timestamp < 2 ^ 32
  pub waited_lem : elapsed_since h.timebase h.process_again_timestamp ≡ waited
  pub beaten_lem : elapsed_since h.timebase (h.comm_handler).heartbeat_timestamp ≡ beaten

-- The response that says that the request failed is being sent.
pub record IsFailing {Data : Type 0} (h : MainHandler Data) : Type 0 where
  pub processing : h.processing_request ≡ true
  pub transmitting : (h.comm_handler).state ≡ State.transmitting
  pub code :
      ((h.comm_handler).active_response).response_code ≡ to_byte ResponseCode.failure_to_proceed

pub elapsed_step :
    (t : Timebase) (timestamp d e : ℕ)
    → elapsed_since t timestamp ≡ e
    → e + d < 2 ^ 32
    → timestamp < 2 ^ 32
    → elapsed_since (Timebase.step t d) timestamp ≡ e + d
unfolding elapsed_since Timebase.step
elapsed_step t timestamp d e was small word = omega (arith, was)

module _ {Data : Type 0}
    (process_request : MainHandler Data → Request → Response → MainHandler Data × Response) where
  -- The handler that `process_request` leaves, its response stored.
  abbrev pub stored : MainHandler Data × Response → MainHandler Data
  stored r =
      let comm = (r.0).comm_handler in
      record r.0 { comm_handler = record comm { active_response = r.1 } }

  abbrev pub with_logic : MainHandler Data → MainHandler Data
  with_logic f = record f { system = process_loops_and_logic f.system f.loop_count }

  pub process-Waits :
      (h : MainHandler Data) (d : ℕ)
      → Waits h d
      → (let r = served process_request h d in
          process process_request h d
          ≡ with_logic (check_finished_sending (conclude (stored r) r.1)))
  unfolding process serve served Session.process
  process-Waits h d w =
      let enabled = w.enabled in
      let unserved = w.unserved in
      let received = w.received in
      let session = w.session in ground (arith, enabled, unserved, received, session)

pub conclude-again :
    {Data : Type 0} (h : MainHandler Data) (r : Response)
    → r.response_code ≡ to_byte ResponseCode.process_again
    → h.process_again_timestamp_taken ≡ true
    → has_expired h.timebase h.process_again_timestamp max_process_time ≡ false
    → check_finished_sending (conclude h r) ≡ record h { processing_request = false }
unfolding conclude check_finished_sending
conclude-again h r code taken early = ground (arith, code, taken, early)

pub send_response-fits :
    (comm : CommHandler) (r : Response)
    → comm.enabled ≡ true
    → comm.state ≡ State.idle
    → r.data_length ≡ 0
    → (let sent = (send_response comm r).0 in
        (sent.state ≡ State.transmitting)
        × ((sent.active_response).response_code ≡ r.response_code))
unfolding send_response add_crc
send_response-fits comm r enabled idle empty =
    (ground (arith, enabled, idle, empty), ground (arith, enabled, idle, empty))

pub conclude-late :
    {Data : Type 0} (h : MainHandler Data) (r : Response)
    → r.response_code ≡ to_byte ResponseCode.process_again
    → h.process_again_timestamp_taken ≡ true
    → has_expired h.timebase h.process_again_timestamp max_process_time ≡ true
    → (let failed = record r { response_code = to_byte ResponseCode.failure_to_proceed } in
        let sent = (send_response h.comm_handler failed).0 in
        sent.state ≡ State.transmitting
        → check_finished_sending (conclude h r)
          ≡ record h { comm_handler = sent; processing_request = true })
unfolding conclude check_finished_sending
conclude-late h r code taken late transmitting = ground (arith, code, taken, late, transmitting)

pub IsAgain-Waits :
    {Data : Type 0} (h : MainHandler Data) (d waited beaten : ℕ)
    → IsAgain h waited beaten
    → beaten + d < heartbeat_timeout
    → Waits h d
unfolding has_expired
IsAgain-Waits h d waited beaten a fresh =
    let fresh' =
      elapsed_step h.timebase (h.comm_handler).heartbeat_timestamp d beaten a.beaten_lem
        (omega arith) a.beat_word in
    record {
      enabled = a.enabled;
      unserved = a.unserved;
      received = a.received;
      session = ground (arith, fresh', fresh);
    }
