-- ===== src/Main/Ownership/Samples.antt =====
-- A datalogger with its loops after the start, for tests.
use scrutiny_embedded.Base.{ℕ, true, false, none}
use scrutiny_embedded.Datalogging.DataLogger.{State}
use scrutiny_embedded.Datalogging.Samples.{clock, logger}
use scrutiny_embedded.LoopHandler.{LoopHandler}
use scrutiny_embedded.Main.Ownership.{DataloggingError}
use scrutiny_embedded.Main.Ownership.Steps.{System}

abbrev pub loop : LoopHandler
loop = record {
  timebase = clock;
  main2loop_msg = none;
  loop2main_msg = none;
  datalogger_data_acquired = false;
  support_datalogging = true;
}

abbrev pub initial : System ℕ
initial = record {
  loops = λ i. loop;
  main = record {
    threadsafe_data = record {
      bytes_to_acquire_from_trigger_to_completion = 0;
      write_counter_since_trigger = 0;
      datalogger_state = State.idle;
    };
    owner = none;
    new_owner = none;
    read_acquisition_crc = 0;
    read_acquisition_rolling_counter = 0;
    error = DataloggingError.no_error;
    request_arm_trigger = false;
    request_ownership_release = false;
    request_disarm_trigger = false;
    pending_ownership_release = false;
    reading_in_progress = false;
  };
  shared = record { datalogger = logger; owner = none };
}
