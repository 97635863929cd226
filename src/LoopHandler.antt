-- ===== src/LoopHandler.antt =====
-- lib/src/scrutiny_loop_handler.cpp with its header, and the mailboxes of lib/inc/ipc: the code that the
-- device calls from each of its loops. A loop is named by its index among the loops of the configuration.
-- A mailbox is empty or holds one message: nobody reads its data while its flag is off. The user's callback
-- that the datalogger calls at a trigger is not modelled.
pub mod Messages
use scrutiny_embedded.Base.{
  ℕ, Bool, true, false, not, ◌&&◌, ◌==◌, if◌then◌else◌, Option, none, some,
}
use scrutiny_embedded.Timebase
use scrutiny_embedded.Timebase.{Timebase}
use scrutiny_embedded.Datalogging.Configuration.{MainHandler}
use scrutiny_embedded.Datalogging.DataLogger.{
  DataLogger, State, is_triggered, arm_trigger, disarm_trigger,
}
use scrutiny_embedded.Datalogging.DataLogger.Process.{
  process, get_bytes_to_acquire_from_trigger_to_completion, data_counter_since_trigger,
}

-- `IPCMessage`
abbrev pub IpcMessage : Type 0 → Type 0
IpcMessage A = Option A

module _ {A : Type 0} where
  abbrev pub has_content : IpcMessage A → Bool
  has_content none = false
  has_content (some msg) = true

  abbrev pub send : IpcMessage A → A → IpcMessage A
  send mailbox msg = some msg

  abbrev pub clear : IpcMessage A → IpcMessage A
  clear mailbox = none

pub data Main2LoopMessage : Type 0 where
  release_datalogger_ownership take_datalogger_ownership : Main2LoopMessage
  datalogger_arm_trigger datalogger_disarm_trigger : Main2LoopMessage

pub data Loop2MainMessage : Type 0 where
  datalogger_ownership_taken datalogger_ownership_released datalogger_data_acquired :
      Loop2MainMessage
  datalogger_status_update :
      (state : State)
      → (bytes_to_acquire_from_trigger_to_completion write_counter_since_trigger : ℕ)
      → Loop2MainMessage

pub record LoopHandler : Type 0 where
  pub timebase : Timebase
  pub main2loop_msg : IpcMessage Main2LoopMessage
  pub loop2main_msg : IpcMessage Loop2MainMessage
  pub datalogger_data_acquired : Bool
  pub support_datalogging : Bool

-- The datalogger that the loops and the main handler share, and its owner, where it has one.
pub record Shared (Data : Type 0) : Type 0 where
  pub datalogger : DataLogger Data
  pub owner : Option ℕ

abbrev pub is_loop : ℕ → Option ℕ → Bool
is_loop i none = false
is_loop i (some k) = k == i

abbrev pub data_acquired : State → Bool
data_acquired State.acquisition_completed = true
data_acquired _ = false

unfoldable pub init : LoopHandler → LoopHandler
init loop = record loop {
  main2loop_msg = clear loop.main2loop_msg;
  loop2main_msg = clear loop.loop2main_msg;
  datalogger_data_acquired = false;
}

module _ {Data : Type 0} where
  abbrev pub owns_datalogger : ℕ → Shared Data → Bool
  owns_datalogger i s = is_loop i s.owner

  -- The switch over the message that has been popped.
  unfoldable pub handle_message :
      ℕ → Main2LoopMessage → LoopHandler → Shared Data → LoopHandler × Shared Data
  handle_message i Main2LoopMessage.take_datalogger_ownership loop s = (
    record loop {
      datalogger_data_acquired = false;
      loop2main_msg = send loop.loop2main_msg Loop2MainMessage.datalogger_ownership_taken;
    },
    record s { owner = some i },
  )
  handle_message i Main2LoopMessage.datalogger_arm_trigger loop s =
      (loop, if owns_datalogger i s then record s { datalogger = arm_trigger s.datalogger } else s)
  handle_message i Main2LoopMessage.datalogger_disarm_trigger loop s = (
    loop,
    if owns_datalogger i s then record s { datalogger = disarm_trigger s.datalogger } else s,
  )
  handle_message i Main2LoopMessage.release_datalogger_ownership loop s =
      if owns_datalogger i s
      then (
        record loop {
          loop2main_msg = send loop.loop2main_msg Loop2MainMessage.datalogger_ownership_released;
        },
        record s { owner = none },
      )
      else (loop, s)

  -- The first half of `process_common`.
  unfoldable pub receive : ℕ → LoopHandler → Shared Data → LoopHandler × Shared Data
  receive i loop s =
      let popped = record loop { main2loop_msg = clear loop.main2loop_msg } in
      if has_content loop.loop2main_msg
      then (loop, s)
      else elim loop.main2loop_msg [ none ↦ (loop, s) | some msg ↦ handle_message i msg popped s ]

  unfoldable pub status_update : DataLogger Data → Loop2MainMessage
  status_update d =
      if is_triggered d.state
      then Loop2MainMessage.datalogger_status_update d.state
          (get_bytes_to_acquire_from_trigger_to_completion d) (data_counter_since_trigger d)
      else Loop2MainMessage.datalogger_status_update d.state 0 0

  -- What an owner tells when its mailbox is free.
  unfoldable pub report : DataLogger Data → LoopHandler → LoopHandler
  report d loop =
      if has_content loop.loop2main_msg
      then loop
      else if data_acquired d.state && not loop.datalogger_data_acquired
      then record loop {
        loop2main_msg = send loop.loop2main_msg Loop2MainMessage.datalogger_data_acquired;
        datalogger_data_acquired = true;
      }
      else record loop { loop2main_msg = send loop.loop2main_msg (status_update d) }

  -- The second half.
  unfoldable pub serve :
      MainHandler
      → (Data → Option (Bool × Data))
      → ℕ
      → LoopHandler
      → Shared Data
      → LoopHandler × Shared Data
  serve main_handler evaluate i loop s =
      let d = (process main_handler evaluate loop.timebase s.datalogger).0 in
      if owns_datalogger i s then (report d loop, record s { datalogger = d }) else (loop, s)

  unfoldable pub process_common :
      MainHandler
      → (Data → Option (Bool × Data))
      → ℕ
      → ℕ
      → LoopHandler
      → Shared Data
      → LoopHandler × Shared Data
  process_common main_handler evaluate i timestep_100ns loop s =
      let stepped = record loop { timebase = Timebase.step loop.timebase timestep_100ns } in
      let received = receive i stepped s in serve main_handler evaluate i received.0 received.1
