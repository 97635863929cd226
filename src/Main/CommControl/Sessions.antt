-- ===== src/Main/CommControl/Sessions.antt =====
-- What the cases of `process_comm_control` leave of the session.
use scrutiny_embedded.Base.{ℕ, Bool, false, ◌≡◌, ◌⊎◌, arith, List}
use scrutiny_embedded.Timebase.{Timebase}
use scrutiny_embedded.Protocol.{Request, Response}
use scrutiny_embedded.Protocol.CommControl
use scrutiny_embedded.Codecs.{decode_32_bits_big_endian_8bits}
use scrutiny_embedded.Comm.State.{CommHandler, reset_rx}
use scrutiny_embedded.Comm.Session.{heartbeat, connect}
use scrutiny_embedded.Main.Config.{Config}
use scrutiny_embedded.Main.CommControl.{
  Outcome, process_comm_control, process_discover, process_heartbeat, process_get_params,
  process_connect, process_disconnect,
}
use scrutiny_embedded.CodecV1.CommControl.{decode_request_comm_disconnect}

-- The session is the same one, or a Connect request begins one where there is none; and its end is asked for only
-- by a Disconnect request that bears its identifier.
pub record KeepsSession (h : CommHandler) (pending : Bool) (request : Request) (o : Outcome)
    : Type 0 where
  pub session :
      ((o.comm_handler).session_active ≡ h.session_active)
        × ((o.comm_handler).session_id ≡ h.session_id)
      ⊎ (h.session_active ≡ false) × (request.subfunction_id ≡ CommControl.connect)
  pub end :
      (o.disconnect_pending ≡ pending)
      ⊎ (request.subfunction_id ≡ CommControl.disconnect)
        × (decode_32_bits_big_endian_8bits h.rx_buffer ≡ h.session_id)

module _ (timebase : Timebase) (config : Config) (software_id : List ℕ) (h : CommHandler)
    (pending : Bool) (request : Request) (response : Response) where
  heartbeat-KeepsSession :
      KeepsSession h pending request
        (process_heartbeat timebase config software_id h pending request response)
  unfolding process_heartbeat heartbeat
  heartbeat-KeepsSession = record { session = ground arith; end = ground arith }

  discover-KeepsSession :
      KeepsSession h pending request
        (process_discover timebase config software_id h pending request response)
  unfolding process_discover
  discover-KeepsSession = record { session = ground arith; end = ground arith }

  get_params-KeepsSession :
      KeepsSession h pending request
        (process_get_params timebase config software_id h pending request response)
  unfolding process_get_params
  get_params-KeepsSession = record { session = ground arith; end = ground arith }

  connect-KeepsSession :
      request.subfunction_id ≡ CommControl.connect
      → KeepsSession h pending request
          (process_connect timebase config software_id h pending request response)
  unfolding process_connect connect reset_rx
  connect-KeepsSession asked = record { session = ground (arith, asked); end = ground arith }

  disconnect-KeepsSession :
      request.subfunction_id ≡ CommControl.disconnect
      → KeepsSession h pending request
          (process_disconnect timebase config software_id h pending request response)
  unfolding process_disconnect decode_request_comm_disconnect
  disconnect-KeepsSession asked = record { session = ground arith; end = ground (arith, asked) }

  -- A request of the communication control command leaves the session as it is, unless it is a Connect request
  -- and no session is active; and it asks for the end of the session only where it is a Disconnect
  -- request that bears the session's identifier.
  pub process_comm_control-KeepsSession :
      KeepsSession h pending request
        (process_comm_control timebase config software_id h pending request response)
  unfolding process_comm_control
  process_comm_control-KeepsSession = ground (
    arith, discover-KeepsSession, heartbeat-KeepsSession, get_params-KeepsSession,
    connect-KeepsSession, disconnect-KeepsSession,
  )
