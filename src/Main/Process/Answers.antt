-- ===== src/Main/Process/Answers.antt =====
-- The request that a call of `process` serves, and the response that it sends.
use scrutiny_embedded.Base.{ℕ, true, false, ◌&&◌, ◌≡◌, ◌≢◌, ◌∙◌, ap, arith, List, take}
use scrutiny_embedded.Timebase
use scrutiny_embedded.Timebase.{Timebase, has_expired}
use scrutiny_embedded.Protocol.{Request, Response}
use scrutiny_embedded.Protocol.ResponseCode.{ResponseCode, to_byte}
use scrutiny_embedded.Comm.State.{CommHandler, is_transmitting}
use scrutiny_embedded.Comm.Session
use scrutiny_embedded.Comm.Session.{heartbeat_timeout}
use scrutiny_embedded.Comm.Transmit.{prepare_response, send_response}
use scrutiny_embedded.Comm.Transmit.Wire.{answer}
use scrutiny_embedded.Comm.Transmit.Sending.{Prepared, pops, sum, pops-answer}
use scrutiny_embedded.Main.Process.{
  MainHandler, process, serve, conclude, check_finished_sending, process_loops_and_logic,
}

-- A request waits at the time of the call, and the session does not end then.
pub record Waits {Data : Type 0} (h : MainHandler Data) (timestep : ℕ) : Type 0 where
  pub enabled : h.enabled ≡ true
  pub unserved : h.processing_request ≡ false
  pub received : (h.comm_handler).request_received ≡ true
  pub session :
      ((h.comm_handler).session_active
        && has_expired
            (Timebase.step h.timebase timestep)
            (h.comm_handler).heartbeat_timestamp
            heartbeat_timeout)
      ≡ false

module _ {Data : Type 0}
    (process_request : MainHandler Data → Request → Response → MainHandler Data × Response) where
  -- What `process_request` gives for the request that waits, at the time of the call.
  unfoldable pub served : MainHandler Data → ℕ → MainHandler Data × Response
  served h timestep =
      let timebase = Timebase.step h.timebase timestep in
      let started = record h {
        timebase = timebase;
        comm_handler = prepare_response (Session.process timebase h.comm_handler);
        system = process_loops_and_logic h.system h.loop_count;
      } in
      let comm = started.comm_handler in
      process_request started comm.active_request comm.active_response

  process-sends :
      (h : MainHandler Data) (timestep : ℕ)
      → Waits h timestep
      → (let r = served h timestep in
          r.1.response_code ≢ to_byte ResponseCode.process_again
          → r.1.response_code ≢ to_byte ResponseCode.no_response_to_send
          → (let comm = (r.0).comm_handler in
              is_transmitting (send_response (record comm { active_response = r.1 }) r.1).0.state
                ≡ true
              → (process process_request h timestep).comm_handler
                ≡ (send_response (record comm { active_response = r.1 }) r.1).0))
  unfolding process serve conclude check_finished_sending served Session.process
  process-sends h timestep w again silent sending =
      let enabled = w.enabled in
      let unserved = w.unserved in
      let received = w.received in
      let session = w.session in
      ground (arith, enabled, unserved, received, session, again, silent, sending)

  send-transmits :
      (comm : CommHandler) (r : Response)
      → (send_response comm r).1 ≡ true
      → is_transmitting (send_response comm r).0.state ≡ true
  unfolding send_response
  send-transmits comm r sent = ground (arith, sent)

  stays-processing :
      (h : MainHandler Data) (timestep : ℕ)
      → Waits h timestep
      → (let r = served h timestep in
          r.1.response_code ≢ to_byte ResponseCode.process_again
          → r.1.response_code ≢ to_byte ResponseCode.no_response_to_send
          → (let comm = (r.0).comm_handler in
              is_transmitting (send_response (record comm { active_response = r.1 }) r.1).0.state
                ≡ true
              → (process process_request h timestep).processing_request ≡ true))
  unfolding process serve conclude check_finished_sending served Session.process
  stays-processing h timestep w again silent sending =
      let enabled = w.enabled in
      let unserved = w.unserved in
      let received = w.received in
      let session = w.session in
      ground (arith, enabled, unserved, received, session, again, silent, sending)

-- A handler that is processing a request does not ask for another.
serves_once :
    {Data : Type 0}
    (process_request process_request' : MainHandler Data
      → Request
      → Response
      → MainHandler Data × Response)
    (h : MainHandler Data) (timestep : ℕ)
    → h.processing_request ≡ true
    → process process_request h timestep ≡ process process_request' h timestep
unfolding process serve
serves_once process_request process_request' h timestep busy = ground (arith, busy)

-- A request waits, `process_request` makes a response of it whose code is neither ProcessAgain nor
-- NoResponseToSend, and leaves a communication handler that can send it. Then the bytes that
-- are taken after the call of `process`, in pieces of any lengths, are the first ones of the
-- response on the wire with its checksum; and the next call does not serve a request,
-- whatever `process_request` is then.
pub process-answer :
    {Data : Type 0}
    (process_request process_request' : MainHandler Data
      → Request
      → Response
      → MainHandler Data × Response)
    (h : MainHandler Data) (timestep timestep' : ℕ) (t : Timebase) (lens : List ℕ)
    → Waits h timestep
    → (let r = served process_request h timestep in
        r.1.response_code ≢ to_byte ResponseCode.process_again
        → r.1.response_code ≢ to_byte ResponseCode.no_response_to_send
        → (let comm = (r.0).comm_handler in
            Prepared (record comm { active_response = r.1 }) r.1
            → ((pops t (process process_request h timestep).comm_handler lens).1
                ≡ take (sum lens) (answer r.1))
              × (process process_request (process process_request h timestep) timestep'
                  ≡ process process_request' (process process_request h timestep) timestep')))
process-answer process_request process_request' h timestep timestep' t lens w again silent
      prepared =
    let r = served process_request h timestep in
    let comm = (r.0).comm_handler in
    let out = pops-answer t (record comm { active_response = r.1 }) r.1 lens prepared in
    let sending =
      send-transmits process_request (record comm { active_response = r.1 }) r.1 out.0 in
    let sends = process-sends process_request h timestep w again silent sending in
    (
      ap (λ c. (pops t c lens).1) sends ∙ out.1,
      serves_once process_request process_request' (process process_request h timestep) timestep'
          (stays-processing process_request h timestep w again silent sending),
    )
