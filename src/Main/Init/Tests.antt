-- ===== src/Main/Init/Tests.antt =====
-- The start of the handler with a configuration that is right, and with a buffer too small.
use scrutiny_embedded.Base.{ℕ, true, false, [], ◌∷◌, ◌≡◌, ◌⊎◌, refl, none, some}
use scrutiny_embedded.Tools.Types.{is_supported_type}
use scrutiny_embedded.Comm.Samples.{blank, noon, buffer}
use scrutiny_embedded.Datalogging.Samples.{main_handler}
use scrutiny_embedded.Main.Config.{Config}
use scrutiny_embedded.Main.Ownership.Samples.{initial}
use scrutiny_embedded.Main.Process.{MainHandler}
use scrutiny_embedded.Main.Init.{Buffers, check_config, init}
use scrutiny_embedded.Main.Init.Starts.{IsRight, IsStarted, IsRefused, init-Starts}

abbrev config : ℕ → Config
config rx_buffer_size = record {
  display_name = [];
  max_bitrate = 0;
  rx_buffer_size = rx_buffer_size;
  tx_buffer_size = 32;
  memory_write_enable = true;
  is_forbidden_address_range_set = false;
  forbidden_ranges = [];
  is_readonly_address_range_set = false;
  readonly_ranges = [];
  rpvs = record { id = 1; type = 18 } ∷ [];
  rpv_read_callback = none;
  rpv_write_callback = none;
  user_command_callback = none;
  loop_count = 2;
}

abbrev buffers : Buffers
buffers = record {
  rx_buffer = some buffer;
  tx_buffer = some buffer;
  datalogger_buffer = some buffer;
  datalogger_buffer_size = 32;
  session_counter_seed = 5;
}

abbrev handler : MainHandler ℕ
handler = record {
  timebase = noon;
  comm_handler = blank;
  process_again_timestamp = 0;
  processing_request = true;
  disconnect_pending = true;
  enabled = false;
  process_again_timestamp_taken = false;
  loop_count = 0;
  system = initial;
}

right_config : check_config (config 32) buffers ≡ true
unfolding check_config is_supported_type
right_config = refl

small_buffer : check_config (config 31) buffers ≡ false
unfolding check_config is_supported_type
small_buffer = refl

init-Starts_example :
    IsRight (config 32) buffers × IsStarted (init (config 32) buffers main_handler handler)
    ⊎ (¬ IsRight (config 32) buffers) × IsRefused (init (config 32) buffers main_handler handler)
init-Starts_example =
    init-Starts (config 32) buffers main_handler handler
      λ j beyond. record { in_mailbox = refl; out_mailbox = refl }
