-- ===== src/Comm/Session/Steps.antt =====
-- The handler and its clock as a machine: the steps that the rest of the program takes with it.
use scrutiny_embedded.Base.{ℕ, List, ◌^◌, ◌≤◌, ◌<◌, length, IsBytes}
use scrutiny_embedded.Timebase.{Timebase, step}
use scrutiny_embedded.Protocol.{Response}
use scrutiny_embedded.Comm.State.{CommHandler, wait_next_request, reset}
use scrutiny_embedded.Comm.Receive.{receive_data}
use scrutiny_embedded.Comm.Transmit.{send_response, pop_data}
use scrutiny_embedded.Comm.Session.{process, heartbeat, connect, disconnect, disable, enable}

-- One call, or a step of the clock. What is received is bytes, and a response has its data.
pub data Step (t : Timebase) (h : CommHandler) : Timebase → CommHandler → Type 0 where
  tick : (d : ℕ) → Step t h (step t d) h
  receive : (bs : List ℕ) → IsBytes bs → length bs < 2 ^ 16 → Step t h t (receive_data t h bs)
  respond : (r : Response) → r.data_length ≤ length r.payload → Step t h t (send_response h r).0
  pop : (len : ℕ) → Step t h t (pop_data t h len).0
  wait : Step t h t (wait_next_request t h)
  poll : Step t h t (process t h)
  beat : (challenge : ℕ) → Step t h t (heartbeat t h challenge).0
  join : Step t h t (connect t h).0
  leave : Step t h t (disconnect t h)
  turn_on : Step t h t (enable h)
  turn_off : Step t h t (disable t h)
  restart : Step t h t (reset t h)

-- What a sequence of steps reaches.
pub data Reachable (t₀ : Timebase) (h₀ : CommHandler) : Timebase → CommHandler → Type 0 where
  start : Reachable t₀ h₀ t₀ h₀
  next :
      {t : Timebase} {h : CommHandler} {t' : Timebase} {h' : CommHandler}
      → Reachable t₀ h₀ t h
      → Step t h t' h'
      → Reachable t₀ h₀ t' h'
