-- ===== src/Main/Ownership/Tests.antt =====
-- The ownership of the datalogger, on concrete calls.
use scrutiny_embedded.Base.{
  inr, [], ◌∷◌, inl, take, ℕ, Bool, true, false, ◌≡◌, refl, arith, Option, some, none,
}
use scrutiny_embedded.Protocol.ResponseCode.{ResponseCode}
use scrutiny_embedded.Datalogging.Samples.{main_handler, configuration, logger}
use scrutiny_embedded.Datalogging.DataLogger.Configure.{
  configure, valid_configuration, sizes_valid, condition_operand_count, operands_valid, items_valid,
  item_valid,
}
use scrutiny_embedded.Main.{touches_any, touches_forbidden_region}
use scrutiny_embedded.Main.Config.{Config}
use scrutiny_embedded.Main.Regions.{IsCovered, IsBelowTop}
use scrutiny_embedded.Main.Memory.Reading.{IsForbidden}
use scrutiny_embedded.Main.Ownership.Checks.{
  check_request, check_operands, check_items, check_item, check_memory,
}
use scrutiny_embedded.Main.Ownership.Requests.{request_configure, finish_configure}
use scrutiny_embedded.Main.Ownership.Allowed.{
  OperandsRead, ItemsRead, HaveSmallSizes, request_configure_lem,
}
use scrutiny_embedded.Main.Ownership.{DataloggingError}
use scrutiny_embedded.Main.Ownership.Steps.{
  System, IsSettled, Step, Reach, configure_step, think_step, run_loop_step,
}
use scrutiny_embedded.Main.Ownership.Safety.{IsInitial, IsConsistent, Reach-IsConsistent}
use scrutiny_embedded.Main.Ownership.Race.{race_lem}
use scrutiny_embedded.Main.Ownership.Calls.{accepting_call}
use scrutiny_embedded.Main.Ownership.Racing.{run_all}
use scrutiny_embedded.Main.Process.{process_loops_and_logic}
use scrutiny_embedded.Main.Ownership.Samples.{loop, initial}

abbrev evaluate : ℕ → Option (Bool × ℕ)
evaluate x = some (true, x)

initial-IsInitial : IsInitial initial
initial-IsInitial = record {
  error = refl;
  main_owner = refl;
  request = refl;
  pending = refl;
  owner = refl;
  ins = λ i. refl;
  outs = λ i. refl;
}

initial-IsSettled : IsSettled initial
initial-IsSettled = record { not_asked = λ i e. cc; not_taken = λ i e. cc }

abbrev configured : System ℕ
configured =
    run_loop_step main_handler evaluate 2 10
      (think_step (configure_step ResponseCode.ok logger logger 2 initial))

configured-Reach : Reach initial configured
configured-Reach =
    Reach.next
      (Reach.next
        (Reach.next Reach.here (Step.configure ResponseCode.ok logger logger 2 initial-IsSettled))
        Step.think)
      (Step.run_loop main_handler evaluate 2 10)

Reach-IsConsistent_example : IsConsistent configured
Reach-IsConsistent_example = Reach-IsConsistent initial-IsInitial configured-Reach

race_lem_example :
    (let asked = accepting_call logger refl 3 2 (accepting_call logger refl 3 1 initial) in
      let ran = run_all main_handler evaluate ((0, 10) ∷ (2, 10) ∷ (1, 20) ∷ (2, 10) ∷ []) asked in
      ((process_loops_and_logic ran 3).main).error ≡ DataloggingError.unexpected_claim)
race_lem_example =
    race_lem main_handler evaluate logger refl 3 1 2 initial
      ((0, 10) ∷ (2, 10) ∷ (1, 20) ∷ (2, 10) ∷ []) refl (omega arith) (omega arith)
      initial-IsInitial refl (inr (inr (inl refl))) (inr (inl refl))

abbrev config : Config
config = record {
  display_name = [];
  max_bitrate = 0;
  rx_buffer_size = 64;
  tx_buffer_size = 32;
  memory_write_enable = true;
  is_forbidden_address_range_set = true;
  forbidden_ranges = record { start = 100; end = 103 } ∷ [];
  is_readonly_address_range_set = false;
  readonly_ranges = [];
  rpvs = [];
  rpv_read_callback = none;
  rpv_write_callback = none;
  user_command_callback = none;
  loop_count = 3;
}

accepts_configuration :
    (request_configure config
      (λ i. loop)
      main_handler
      (λ x. x)
      (ResponseCode.ok, configuration, 1, 5)
      initial.main
      initial.shared).2
    ≡ ResponseCode.ok
unfolding request_configure finish_configure check_request check_operands check_items check_item
    check_memory touches_forbidden_region touches_any configure valid_configuration sizes_valid
    condition_operand_count operands_valid items_valid item_valid
accepts_configuration = refl

configuration-HaveSmallSizes : HaveSmallSizes (take 2 configuration.items_to_log)
unfolding HaveSmallSizes
configuration-HaveSmallSizes = (omega arith, tt)

IsForbidden-100 : IsForbidden config 100
unfolding IsCovered
IsForbidden-100 = record { is_set = refl; covered = inl (omega arith, omega arith) }

forbidden_ranges-IsBelowTop : IsBelowTop config.forbidden_ranges
unfolding IsBelowTop
forbidden_ranges-IsBelowTop = (omega arith, tt)

request_configure_lem_example :
    (OperandsRead [] 100 → ⊥) × (ItemsRead (take 2 configuration.items_to_log) 100 → ⊥)
request_configure_lem_example =
    request_configure_lem config (λ i. loop) main_handler (λ x. x) ResponseCode.ok configuration 1 5
      initial.main initial.shared 100 forbidden_ranges-IsBelowTop IsForbidden-100
      configuration-HaveSmallSizes accepts_configuration
