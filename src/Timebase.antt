-- ===== src/Timebase.antt =====
-- lib/inc/scrutiny_timebase.hpp: a 32 bit clock in steps of 100 ns, which wraps.
pub mod Elapsed
mod Tests
use scrutiny_embedded.Base.{ℕ, ◌+◌, ◌-◌, ◌/◌, ◌%◌, ◌^◌, Bool, leb, u32, sub32}

pub record Timebase : Type 0 where
  pub time_100ns : ℕ

unfoldable pub step : Timebase → ℕ → Timebase
step t timestep_100ns = record { time_100ns = u32 (t.time_100ns + timestep_100ns) }

unfoldable pub get_timestamp : Timebase → ℕ
get_timestamp t = t.time_100ns

unfoldable pub elapsed_since : Timebase → ℕ → ℕ
elapsed_since t timestamp = sub32 t.time_100ns timestamp

unfoldable pub elapsed_us_since : Timebase → ℕ → ℕ
unfolding elapsed_since
elapsed_us_since t timestamp = elapsed_since t timestamp / 10

unfoldable pub has_expired : Timebase → ℕ → ℕ → Bool
unfolding elapsed_since
has_expired t timestamp timeout_100ns = leb timeout_100ns (elapsed_since t timestamp)

-- `reset` puts the clock back.
unfoldable pub reset : ℕ → Timebase
reset val = record { time_100ns = val }
