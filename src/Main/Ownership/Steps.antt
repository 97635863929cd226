-- ===== src/Main/Ownership/Steps.antt =====
-- The main handler and the loops as one machine: the handlers' calls in any order.
use scrutiny_embedded.Base.{ℕ, Bool, ◌≢◌, Option, some}
use scrutiny_embedded.Protocol.ResponseCode.{ResponseCode}
use scrutiny_embedded.Datalogging.Configuration.{MainHandler}
use scrutiny_embedded.Datalogging.DataLogger.{DataLogger}
use scrutiny_embedded.LoopHandler.{Shared, Main2LoopMessage, Loop2MainMessage, process_common}
use scrutiny_embedded.Main.Ownership.{
  Datalogging, Loops, update, process_loop, process_datalogging_logic,
}
use scrutiny_embedded.Main.Ownership.Requests.{
  request_arm_trigger, request_disarm_trigger, finish_configure, request_reset,
}

pub record System (Data : Type 0) : Type 0 where
  pub loops : Loops
  pub main : Datalogging
  pub shared : Shared Data

module _ {Data : Type 0} where
  -- A call of a loop's `process_common`.
  abbrev pub run_loop_step :
      MainHandler → (Data → Option (Bool × Data)) → ℕ → ℕ → System Data → System Data
  run_loop_step main_handler evaluate i timestep_100ns s =
      let r = process_common main_handler evaluate i timestep_100ns (s.loops i) s.shared in
      record s { loops = update s.loops i r.0; shared = r.1 }

  abbrev pub hear_step : ℕ → System Data → System Data
  hear_step i s =
      let r = process_loop i s.loops s.main s.shared in
      record { loops = r.0; main = r.1; shared = r.2 }

  abbrev pub think_step : System Data → System Data
  think_step s =
      let r = process_datalogging_logic s.loops s.main s.shared in
      record s { loops = r.0; main = r.1 }

  abbrev pub configure_step :
      ResponseCode → DataLogger Data → DataLogger Data → ℕ → System Data → System Data
  configure_step code decoded configured loop s =
      let r = finish_configure code decoded configured loop s.main s.shared in
      record s { main = r.0; shared = r.1 }

  abbrev pub reset_step : System Data → System Data
  reset_step s = let r = request_reset s.main s.shared in record s { main = r.0; shared = r.1 }

-- No loop has been asked to own the datalogger without the main handler's having heard of it.
pub record IsSettled {Data : Type 0} (s : System Data) : Type 0 where
  pub not_asked :
      (i : ℕ) → (s.loops i).main2loop_msg ≢ some Main2LoopMessage.take_datalogger_ownership
  pub not_taken :
      (i : ℕ) → (s.loops i).loop2main_msg ≢ some Loop2MainMessage.datalogger_ownership_taken

-- A call of a loop, a round of `process_loops`, the datalogging logic, and the requests. The datalogger is
-- configured in a state that is settled.
pub data Step {Data : Type 0} (s : System Data) : System Data → Type 0 where
  run_loop :
      (main_handler : MainHandler) (evaluate : Data → Option (Bool × Data)) (i timestep_100ns : ℕ)
      → Step s (run_loop_step main_handler evaluate i timestep_100ns s)
  hear : (i : ℕ) → Step s (hear_step i s)
  think : Step s (think_step s)
  configure :
      (code : ResponseCode) (decoded configured : DataLogger Data) (loop : ℕ)
      → IsSettled s
      → Step s (configure_step code decoded configured loop s)
  reset : Step s (reset_step s)
  arm : Step s (record s { main = (request_arm_trigger s.main).0 })
  disarm : Step s (record s { main = (request_disarm_trigger s.main).0 })

pub data Reach {Data : Type 0} (s : System Data) : System Data → Type 0 where
  here : Reach s s
  next : {t u : System Data} → Reach s t → Step t u → Reach s u
