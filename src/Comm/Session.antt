-- ===== src/Comm/Session.antt =====
-- `connect`, `disconnect`, `heartbeat`, `process`, `enable` and `disable`: the session with a server.
pub mod Untouched
pub mod Consistent
pub mod Steps
pub mod Timeout
use scrutiny_embedded.Base.{
  ℕ, Bool, true, false, not, ◌||◌, ◌&&◌, ◌+◌, ◌*◌, ◌%◌, ◌^◌, ◌==◌, if◌then◌else◌, u32,
}
use scrutiny_embedded.Timebase.{Timebase, get_timestamp, has_expired}
use scrutiny_embedded.Comm.State.{CommHandler, reset, reset_rx, reset_tx}

-- SCRUTINY_COMM_HEARTBEAT_TIMEOUT_US * 10, in steps of 100 ns.
abbrev pub heartbeat_timeout : ℕ
heartbeat_timeout = 5000000 * 10

module _ (timebase : Timebase) where
  unfoldable pub process : CommHandler → CommHandler
  process h =
      if h.session_active
      then (if has_expired timebase h.heartbeat_timestamp heartbeat_timeout
          then reset timebase h
          else h)
      else h

  unfoldable pub heartbeat : CommHandler → ℕ → CommHandler × Bool
  unfolding get_timestamp
  heartbeat h challenge =
      if not h.session_active || not h.enabled
      then (h, false)
      else if not (challenge == h.last_heartbeat_challenge) || not h.first_heartbeat_received
      then (
        record h {
          first_heartbeat_received = true;
          heartbeat_timestamp = get_timestamp timebase;
          last_heartbeat_challenge = challenge;
        },
        true,
      )
      else (h, false)

  unfoldable pub connect : CommHandler → CommHandler × Bool
  unfolding get_timestamp
  connect h = if not h.enabled || h.session_active then (h, false) else (
    reset_rx timebase (record h {
      session_id = h.session_counter;
      session_counter = u32 (h.session_counter + 1);
      session_active = true;
      first_heartbeat_received = false;
      heartbeat_timestamp = get_timestamp timebase;
    }),
    true,
  )

  unfoldable pub disconnect : CommHandler → CommHandler
  disconnect h = reset_tx (
      reset_rx timebase
        (record h { session_id = 0; session_active = false; first_heartbeat_received = false }))

  unfoldable pub disable : CommHandler → CommHandler
  disable h = let h' = reset timebase h in record h' { enabled = false }

unfoldable pub enable : CommHandler → CommHandler
enable h = record h { enabled = true }
