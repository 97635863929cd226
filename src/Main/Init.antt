-- ===== src/Main/Init.antt =====
-- `MainHandler::init` and `check_config` of lib/src/scrutiny_main_handler.cpp. A status is true where it is SUCCESS.
pub mod Starts
mod Tests
use scrutiny_embedded.Base.{
  ℕ, zero, suc, Bool, true, false, not, ◌||◌, List, [], ◌∷◌, ltb, if◌then◌else◌, Option, none, some,
}
use scrutiny_embedded.Tools.Types.{is_supported_type}
use scrutiny_embedded.Protocol.{
  minimum_rx_buffer_size, minimum_tx_buffer_size, maximum_rx_buffer_size, maximum_tx_buffer_size,
}
use scrutiny_embedded.Comm.State
use scrutiny_embedded.Comm.Session
use scrutiny_embedded.Datalogging.Configuration
use scrutiny_embedded.Datalogging.DataLogger
use scrutiny_embedded.LoopHandler
use scrutiny_embedded.Main.{RuntimePublishedValue}
use scrutiny_embedded.Main.Config.{Config}
use scrutiny_embedded.Main.Ownership.{Datalogging, DataloggingError, Loops, update}
use scrutiny_embedded.Main.Process.{MainHandler}

-- The memory that the integrator gives in the configuration, where its pointers are set.
pub record Buffers : Type 0 where
  pub rx_buffer : Option (List ℕ)
  pub tx_buffer : Option (List ℕ)
  pub datalogger_buffer : Option (List ℕ)
  pub datalogger_buffer_size : ℕ
  pub session_counter_seed : ℕ

abbrev pub is_set : Option (List ℕ) → Bool
is_set none = false
is_set (some _) = true

abbrev pub held : Option (List ℕ) → List ℕ
held none = []
held (some bytes) = bytes

-- The loop over the published values, on `m_enabled`.
unfoldable pub check_rpvs : List RuntimePublishedValue → Bool → Bool
check_rpvs [] enabled = enabled
check_rpvs (rpv ∷ rpvs) enabled =
    check_rpvs rpvs (if not (is_supported_type rpv.type) then false else enabled)

-- It gives `m_enabled`, which is its status too.
unfoldable pub check_config : Config → Buffers → Bool
unfolding check_rpvs
check_config config b =
    let bad_rx =
      not (is_set b.rx_buffer)
      || (ltb config.rx_buffer_size minimum_rx_buffer_size
          || ltb maximum_rx_buffer_size config.rx_buffer_size) in
    let bad_tx =
      not (is_set b.tx_buffer)
      || (ltb config.tx_buffer_size minimum_tx_buffer_size
          || ltb maximum_tx_buffer_size config.tx_buffer_size) in
    let rx_checked = if bad_rx then false else true in
    let tx_checked = if bad_tx then false else rx_checked in check_rpvs config.rpvs tx_checked

-- The loop over the loops: the first `count` of them. The start of one succeeds always.
unfoldable pub init_loops : ℕ → Loops → Loops
init_loops zero loops = loops
init_loops (suc i) loops =
    let before = init_loops i loops in update before i (LoopHandler.init (before i))

-- `m_datalogging` after the start of the datalogger, whose state is given.
unfoldable pub init_datalogging : Datalogging → DataLogger.State → Datalogging
init_datalogging m state = record m {
  owner = none;
  new_owner = none;
  error = DataloggingError.no_error;
  request_arm_trigger = false;
  request_ownership_release = false;
  pending_ownership_release = false;
  request_disarm_trigger = false;
  reading_in_progress = false;
  read_acquisition_rolling_counter = 0;
  threadsafe_data = record {
    datalogger_state = state;
    bytes_to_acquire_from_trigger_to_completion = 0;
    write_counter_since_trigger = 0;
  };
}

module _ {Data : Type 0} where
  -- What the datalogger asks of the handler is `main_handler`.
  unfoldable pub init :
      Config → Buffers → Configuration.MainHandler → MainHandler Data → MainHandler Data × Bool
  unfolding check_config init_loops init_datalogging State.init Session.disable DataLogger.init
  init config b main_handler h =
      let comm =
        State.init h.timebase h.comm_handler (held b.rx_buffer) config.rx_buffer_size
          (held b.tx_buffer) config.tx_buffer_size b.session_counter_seed in
      let checked = check_config config b in
      let started = record h {
        processing_request = false;
        disconnect_pending = false;
        process_again_timestamp_taken = false;
        loop_count = config.loop_count;
        comm_handler = comm;
        enabled = checked;
      } in
      let system = h.system in
      let shared = system.shared in
      let datalogger =
        DataLogger.init main_handler shared.datalogger (is_set b.datalogger_buffer)
          (held b.datalogger_buffer) b.datalogger_buffer_size in
      if not checked
      then (record started { comm_handler = Session.disable h.timebase comm }, false)
      else if not comm.enabled
      then (record started { enabled = false }, false)
      else (
        record started {
          system = record {
            loops = init_loops config.loop_count system.loops;
            main = init_datalogging system.main datalogger.state;
            shared = record { datalogger = datalogger; owner = none };
          };
        },
        true,
      )
