-- ===== src/Datalogging/DataLogger.antt =====
-- `DataLogger` of lib/src/datalogging/scrutiny_datalogger.cpp: from a configuration to a trigger and
-- a completed acquisition. The clock of the owning loop is an argument of what reads it.
pub mod Configure
pub mod Process
pub mod Acquisition
use scrutiny_embedded.Base.{
  ℕ, zero, suc, Bool, true, false, not, ◌&&◌, ◌||◌, List, [], ◌∷◌, ◌+◌, ◌-◌, ◌*◌, ◌/◌, ◌%◌, ◌^◌,
  ltb, leb, ◌==◌, if◌then◌else◌, max, take, u16, u32, low_bits, ◌>>>◌, Option, none, some,
}
use scrutiny_embedded.Timebase.{Timebase, get_timestamp, has_expired}
use scrutiny_embedded.Tools.Types.{is_supported_type, get_type_size_char}
use scrutiny_embedded.Datalogging.Configuration.{
  Operand, LoggableItem, TriggerConfig, Configuration, MainHandler, max_operands, max_signal,
}
use scrutiny_embedded.Datalogging.RawEncoder.{
  RawEncoder, encode_next_entry, reset_write_counter, get_write_cursor, get_data_write_counter,
  remaining_bytes_to_full,
}
use scrutiny_embedded.Datalogging.RawEncoder

pub data State : Type 0 where
  idle configured armed triggered acquisition_completed error : State

-- `active_condition` is the index of the condition in the table. `Data` is what a condition keeps.
pub record DataLogger {ℓ} (Data : Type ℓ) : Type ℓ where
  pub config : Configuration
  pub encoder : RawEncoder
  pub buffer_size : ℕ
  pub trigger_timestamp : ℕ
  pub trigger_cursor_location : ℕ
  pub remaining_data_to_write : ℕ
  pub log_points_after_trigger : ℕ
  pub decimation_counter : ℕ
  pub acquisition_id : ℕ
  pub config_id : ℕ
  pub manual_trigger : Bool
  pub config_valid : Bool
  pub state : State
  pub active_condition : ℕ
  pub condition_data : Data
  pub rising_edge_timestamp : ℕ
  pub previous_val : Bool

abbrev pub is_armed : State → Bool
is_armed State.armed = true
is_armed _ = false

abbrev pub is_triggered : State → Bool
is_triggered State.triggered = true
is_triggered _ = false

abbrev pub is_running : State → Bool
is_running State.configured = true
is_running State.armed = true
is_running State.triggered = true
is_running _ = false

module _ {ℓ} {Data : Type ℓ} where
  unfoldable pub reset : DataLogger Data → DataLogger Data
  reset d = record d {
    state = State.idle;
    previous_val = false;
    rising_edge_timestamp = 0;
    active_condition = 0;
    trigger_cursor_location = 0;
    trigger_timestamp = 0;
    remaining_data_to_write = 0;
    config_valid = false;
    manual_trigger = false;
    decimation_counter = 0;
    log_points_after_trigger = 0;
  }

  unfoldable pub arm_trigger : DataLogger Data → DataLogger Data
  arm_trigger d = record d { state = armed_from d.state }
    where
      armed_from : State → State
      armed_from State.configured = State.armed
      armed_from State.acquisition_completed = State.armed
      armed_from State.triggered = State.armed
      armed_from s = s

  unfoldable pub disarm_trigger : DataLogger Data → DataLogger Data
  disarm_trigger d = record d { state = disarmed_from d.state }
    where
      disarmed_from : State → State
      disarmed_from State.armed = State.configured
      disarmed_from State.acquisition_completed = State.configured
      disarmed_from State.triggered = State.configured
      disarmed_from s = s

  unfoldable pub force_trigger : DataLogger Data → DataLogger Data
  force_trigger d = if is_armed d.state then record d { manual_trigger = true } else d

  unfoldable pub init : MainHandler → DataLogger Data → Bool → List ℕ → ℕ → DataLogger Data
  init main_handler d has_buffer buffer buffer_size = reset (record d {
    buffer_size = buffer_size;
    encoder = RawEncoder.init main_handler d.config d.encoder has_buffer buffer buffer_size;
    acquisition_id = 0;
  })
