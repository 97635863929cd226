-- ===== src/Main/Config.antt =====
-- What the main handler reads of its `Config` (lib/inc/scrutiny_config.hpp) when it serves a request.
use scrutiny_embedded.Base.{ℕ, Bool, List, Option}
use scrutiny_embedded.Main.{AddressRange, RuntimePublishedValue}

-- `display_name` is the characters before the first that is 0, with none where the pointer is null.
-- `..._set` tells whether the pointer to the ranges is set. A callback is absent where its pointer is
-- null; one that is there is a function of its arguments. The callback that reads gives the value where
-- it succeeds; the one that writes whether it does. The user's command gives the bytes that it writes to
-- the response and the length that it tells.
pub record Config : Type 0 where
  pub display_name : List ℕ
  pub max_bitrate : ℕ
  pub rx_buffer_size : ℕ
  pub tx_buffer_size : ℕ
  pub memory_write_enable : Bool
  pub is_forbidden_address_range_set : Bool
  pub forbidden_ranges : List AddressRange
  pub is_readonly_address_range_set : Bool
  pub readonly_ranges : List AddressRange
  pub rpvs : List RuntimePublishedValue
  pub rpv_read_callback : Option (RuntimePublishedValue → Option ℕ)
  pub rpv_write_callback : Option (RuntimePublishedValue → ℕ → Bool)
  pub user_command_callback : Option (ℕ → List ℕ → ℕ → List ℕ × ℕ)
  pub loop_count : ℕ
