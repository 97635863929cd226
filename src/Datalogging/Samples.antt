-- ===== src/Datalogging/Samples.antt =====
-- Concrete values of the datalogger and of what it asks of the main handler, for tests.
use scrutiny_embedded.Base.{ℕ, true, false, [], ◌∷◌, replicate, none, some}
use scrutiny_embedded.Timebase.{Timebase}
use scrutiny_embedded.Datalogging.Configuration.{LoggableItem, Configuration, MainHandler}
use scrutiny_embedded.Datalogging.RawEncoder.{RawEncoder, reset}
use scrutiny_embedded.Datalogging.DataLogger.{DataLogger, State}

abbrev pub main_handler : MainHandler
main_handler = record {
  read_memory = λ address size. some (replicate size 7);
  get_rpv = λ id. none;
  read_rpv = λ id. none;
  rpvs_configured = false;
}

-- Three bytes of memory and the time: entries of seven bytes, of which four fit.
abbrev pub configuration : Configuration
configuration = record {
  items_to_log = LoggableItem.memory 1000 3 ∷ LoggableItem.time ∷ [];
  trigger = record { operands = []; hold_time_100ns = 50; operand_count = 0; condition = 0 };
  timeout_100ns = 0;
  decimation = 1;
  items_count = 2;
  probe_location = 128;
}

abbrev pub encoder : RawEncoder
encoder = record {
  has_buffer = true;
  buffer = replicate 30 0;
  buffer_size = 30;
  max_entries = 0;
  next_entry_write_index = 0;
  first_valid_entry_index = 0;
  entry_write_counter = 0;
  entry_size = 0;
  full = false;
  error = true;
}

abbrev pub clock : Timebase
clock = record { time_100ns = 4294967290 }

abbrev pub logger : DataLogger ℕ
logger = record {
  config = configuration;
  encoder = reset main_handler configuration encoder;
  buffer_size = 30;
  trigger_timestamp = 0;
  trigger_cursor_location = 0;
  remaining_data_to_write = 0;
  log_points_after_trigger = 0;
  decimation_counter = 0;
  acquisition_id = 0;
  config_id = 1;
  manual_trigger = false;
  config_valid = true;
  state = State.armed;
  active_condition = 0;
  condition_data = 0;
  rising_edge_timestamp = 0;
  previous_val = false;
}
