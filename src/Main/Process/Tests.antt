-- ===== src/Main/Process/Tests.antt =====
-- Calls of `process`, on concrete requests.
use scrutiny_embedded.Base.{some, ℕ, true, false, [], ◌∷◌, ◌≡◌, ◌≢◌, ◌<◌, refl, arith, take}
use scrutiny_embedded.Timebase
use scrutiny_embedded.Timebase.{Timebase, has_expired, elapsed_since}
use scrutiny_embedded.Protocol.{Request, Response, reset_response}
use scrutiny_embedded.Protocol.ResponseCode.{ResponseCode, to_byte}
use scrutiny_embedded.Comm.State.{CommHandler}
use scrutiny_embedded.Comm.Samples.{blank, noon, buffer}
use scrutiny_embedded.Comm.Session
use scrutiny_embedded.Comm.Transmit.{prepare_response}
use scrutiny_embedded.Comm.Transmit.Sending.{Prepared, pops, sum}
use scrutiny_embedded.Comm.Transmit.Wire.{answer}
use scrutiny_embedded.Datalogging.Samples.{logger}
use scrutiny_embedded.Main.Ownership.{
  process_datalogging_logic, process_loops, process_loops_from, process_loop, logic_of_owner,
}
use scrutiny_embedded.Main.Ownership.Requests.{finish_configure}
use scrutiny_embedded.Main.Ownership.Steps.{System}
use scrutiny_embedded.Main.Ownership.Samples.{initial}
use scrutiny_embedded.Main.Process.{MainHandler, process, process_loops_and_logic}
use scrutiny_embedded.Main.Process.Answers.{served, Waits, process-answer}
use scrutiny_embedded.Main.Process.Stalling.{IsAgain}
use scrutiny_embedded.Main.Process.Waiting.{AllStall, Expires, runs-Expires}

-- A request that has been received, with a session whose heartbeat has just come.
abbrev waiting : CommHandler
waiting =
    let active = blank.active_response in
    record blank {
      heartbeat_timestamp = 4294967000;
      session_active = true;
      session_id = 5;
      enabled = true;
      request_received = true;
      tx_buffer_size = 32;
      active_response = record active { payload = buffer; data_max_length = 32 };
    }

abbrev handler : MainHandler ℕ
handler = record {
  timebase = noon;
  comm_handler = waiting;
  process_again_timestamp = 0;
  processing_request = false;
  disconnect_pending = false;
  enabled = true;
  process_again_timestamp_taken = false;
  loop_count = 3;
  system = initial;
}

-- Three bytes, or a request to come again.
abbrev three_bytes : MainHandler ℕ → Request → Response → MainHandler ℕ × Response
three_bytes h q r = (
  h,
  record r {
    command_id = 1;
    subfunction_id = 2;
    data_length = 3;
    payload = 10 ∷ 20 ∷ 30 ∷ r.payload;
  },
)

abbrev come_again : MainHandler ℕ → Request → Response → MainHandler ℕ × Response
come_again h q r = (h, record r { response_code = 0xFF; data_length = 0 })

handler-Waits : Waits handler 400
unfolding has_expired elapsed_since Timebase.step
handler-Waits = record { enabled = refl; unserved = refl; received = refl; session = refl }

abbrev three : Response
three = (served three_bytes handler 400).1

three-Prepared :
    (let comm = ((served three_bytes handler 400).0).comm_handler in
      Prepared (record comm { active_response = three }) three)
unfolding served Session.process has_expired elapsed_since Timebase.step prepare_response
    reset_response
three-Prepared = record {
  enabled = refl;
  is_idle = refl;
  rewound = refl;
  room = omega arith;
  word = omega arith;
  stored = omega arith;
}

three-ne : (n : ℕ) → 0 < n → three.response_code ≢ n
unfolding served Session.process has_expired elapsed_since Timebase.step prepare_response
    reset_response
three-ne n pos e = absurd (omega arith)

process-answer_example :
    ((pops noon (process three_bytes handler 400).comm_handler (2 ∷ 6 ∷ 100 ∷ [])).1
      ≡ take (sum (2 ∷ 6 ∷ 100 ∷ [])) (answer three))
    × (process three_bytes (process three_bytes handler 400) 10
        ≡ process come_again (process three_bytes handler 400) 10)
unfolding to_byte
process-answer_example =
    process-answer three_bytes come_again handler 400 10 noon (2 ∷ 6 ∷ 100 ∷ []) handler-Waits
      (three-ne _ (omega arith)) (three-ne _ (omega arith)) three-Prepared

-- ConfigureDatalog in `process_request`, its configuration decoded and checked.
abbrev configure_again : MainHandler ℕ → Request → Response → MainHandler ℕ × Response
configure_again h q r =
    let s = h.system in
    let result = finish_configure ResponseCode.ok logger logger 2 s.main s.shared in
    (
      record h { system = record s { main = result.0; shared = result.1 } },
      record r {
        command_id = q.command_id;
        subfunction_id = q.subfunction_id;
        response_code = to_byte result.2;
        data_length = 0;
      },
    )

-- Loop 1 owns the datalogger, and does not run.
abbrev owned : System ℕ
owned =
    let m = initial.main in
    let s = initial.shared in
    record initial { main = record m { owner = some 1 }; shared = record s { owner = some 1 } }

abbrev asked_again : MainHandler ℕ
asked_again = record handler {
  process_again_timestamp = 4294967000;
  process_again_timestamp_taken = true;
  system = owned;
}

asked_again-IsAgain : IsAgain asked_again 0 0
unfolding elapsed_since
asked_again-IsAgain = record {
  enabled = refl;
  unserved = refl;
  taken = refl;
  received = refl;
  comm_enabled = refl;
  idle = refl;
  word = omega arith;
  beat_word = omega arith;
  waited_lem = refl;
  beaten_lem = refl;
}

asked_again-AllStall : AllStall configure_again asked_again (400000 ∷ 700000 ∷ [])
unfolding AllStall to_byte finish_configure process_loops_and_logic process_datalogging_logic
    process_loops process_loops_from process_loop logic_of_owner process Session.process has_expired
    Timebase.step
asked_again-AllStall = (
  record {
    code = refl;
    empty = refl;
    comm_handler = refl;
    timebase = refl;
    timestamp = refl;
    taken = refl;
    enabled = refl;
  },
  (
    record {
      code = refl;
      empty = refl;
      comm_handler = refl;
      timebase = refl;
      timestamp = refl;
      taken = refl;
      enabled = refl;
    },
    refl,
  ),
)

runs-Expires_example : Expires configure_again asked_again (400000 ∷ 700000 ∷ []) 0 0
runs-Expires_example =
    runs-Expires configure_again asked_again (400000 ∷ 700000 ∷ []) 0 0 asked_again-AllStall
      asked_again-IsAgain (omega arith) (omega arith) (omega arith)
