-- ===== src/Datalogging/Tests.antt =====
-- A datalogger on a concrete configuration.
use scrutiny_embedded.Base.{true, List, [], ◌∷◌, ◌≡◌, refl, arith, min, some}
use scrutiny_embedded.Timebase.{Timebase}
use scrutiny_embedded.Timebase.Elapsed.{total}
use scrutiny_embedded.Datalogging.Configuration.{MainHandler}
use scrutiny_embedded.Datalogging.RawEncoder.{reset, sum_sizes, item_size, get_entry_count}
use scrutiny_embedded.Datalogging.RawEncoder.Indexes.{encode_all, Written, reset-encode_all}
use scrutiny_embedded.Datalogging.DataLogger.Configure.{condition_operand_count}
use scrutiny_embedded.Datalogging.DataLogger.Process.{process}
use scrutiny_embedded.Datalogging.DataLogger.Acquisition.{
  Moves, process-Moves, checks, checks-IsWaiting,
}
use scrutiny_embedded.Datalogging.Samples.{main_handler, configuration, encoder, clock, logger}

abbrev samples : List (MainHandler × Timebase)
samples = (main_handler, clock) ∷ (main_handler, clock) ∷ []

reset-encode_all_example :
    Written 2 (encode_all configuration (reset main_handler configuration encoder) samples)
    × (get_entry_count (encode_all configuration (reset main_handler configuration encoder) samples)
        ≡ min 2
            (encode_all configuration
              (reset main_handler configuration encoder)
              samples).max_entries)
unfolding reset sum_sizes item_size
reset-encode_all_example =
    reset-encode_all main_handler configuration encoder samples (omega arith) refl

process-Moves_example :
    Moves logger (process main_handler (λ x. some (true, x)) clock logger).0.state
process-Moves_example = process-Moves main_handler (λ x. some (true, x)) clock logger

-- The condition is true for 20 and 30 steps of the clock, which wraps, and the hold time is 50.
checks-IsWaiting_example : (checks (λ x. x) clock logger (20 ∷ 30 ∷ [])).1 ≡ true
unfolding condition_operand_count total
checks-IsWaiting_example =
    checks-IsWaiting (λ x. x) clock logger (20 ∷ 30 ∷ [])
      (record {
        armed = refl;
        automatic = refl;
        operands = omega arith;
        before = refl;
        clock = omega arith;
      })
      (omega arith)
