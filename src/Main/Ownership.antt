-- ===== src/Main/Ownership.antt =====
-- The datalogging state of the main handler and what it says to the loops and hears from them:
-- `process_datalogging_loop_msg`, `process_datalogging_logic` and `process_loops` of
-- lib/src/scrutiny_main_handler.cpp.
pub mod Checks
pub mod Requests
pub mod Steps
pub mod Phases
pub mod LoopMoves
pub mod Similar
pub mod MainMoves
pub mod LogicMoves
pub mod RequestMoves
pub mod Allowed
pub mod Safety
pub mod Hearing
pub mod Calls
pub mod Racing
pub mod Race
pub mod Samples
mod Tests
use scrutiny_embedded.Base.{
  ℕ, zero, suc, Bool, true, false, not, ◌==◌, ◌+◌, if◌then◌else◌, Option, none, some,
}
use scrutiny_embedded.Datalogging.DataLogger.{DataLogger, State}
use scrutiny_embedded.Datalogging.DataLogger
use scrutiny_embedded.LoopHandler.{
  IpcMessage, has_content, send, clear, Main2LoopMessage, Loop2MainMessage, LoopHandler, Shared,
  data_acquired, is_loop,
}

pub data DataloggingError : Type 0 where
  no_error unexpected_release unexpected_claim : DataloggingError

pub record ThreadSafeData : Type 0 where
  pub bytes_to_acquire_from_trigger_to_completion : ℕ
  pub write_counter_since_trigger : ℕ
  pub datalogger_state : State

-- `m_datalogging`, but the datalogger itself, which is in `Shared`.
pub record Datalogging : Type 0 where
  pub threadsafe_data : ThreadSafeData
  pub owner : Option ℕ
  pub new_owner : Option ℕ
  pub read_acquisition_crc : ℕ
  pub read_acquisition_rolling_counter : ℕ
  pub error : DataloggingError
  pub request_arm_trigger : Bool
  pub request_ownership_release : Bool
  pub request_disarm_trigger : Bool
  pub pending_ownership_release : Bool
  pub reading_in_progress : Bool

abbrev pub has_owner : Option ℕ → Bool
has_owner none = false
has_owner (some i) = true

abbrev pub is_no_error : DataloggingError → Bool
is_no_error DataloggingError.no_error = true
is_no_error _ = false

-- The loops by their index.
abbrev pub Loops : Type 0
Loops = ℕ → LoopHandler

abbrev pub update : Loops → ℕ → LoopHandler → Loops
update loops i loop j = if i == j then loop else loops j

-- The message that the owner is sent, with the flags that are left.
unfoldable pub logic_of_owner : ℕ → Loops → Datalogging → Loops × Datalogging
logic_of_owner owner loops m =
    let loop = loops owner in
    let tell = λ (msg : Main2LoopMessage).
      update loops owner (record loop { main2loop_msg = send loop.main2loop_msg msg }) in
    if has_content loop.main2loop_msg
    then (loops, m)
    else if m.request_ownership_release
    then (
      tell Main2LoopMessage.release_datalogger_ownership,
      record m { request_ownership_release = false; pending_ownership_release = true },
    )
    else if m.request_arm_trigger
    then (tell Main2LoopMessage.datalogger_arm_trigger, record m { request_arm_trigger = false })
    else if m.request_disarm_trigger
    then (
      tell Main2LoopMessage.datalogger_disarm_trigger,
      record m { request_disarm_trigger = false },
    )
    else (loops, m)

-- With no owner: the loop that is to be one is asked where its mailbox is free.
unfoldable pub logic_of_new_owner : ℕ → Loops → Datalogging → Loops × Datalogging
logic_of_new_owner new_owner loops m =
    let loop = loops new_owner in
    let asked = record loop {
      main2loop_msg = send loop.main2loop_msg Main2LoopMessage.take_datalogger_ownership;
    } in
    if has_content loop.main2loop_msg
    then (loops, m)
    else (update loops new_owner asked, record m { new_owner = none })

module _ {Data : Type 0} where
  unfoldable pub process_datalogging_loop_msg :
      ℕ → Loop2MainMessage → Datalogging → Shared Data → Datalogging × Shared Data
  process_datalogging_loop_msg sender Loop2MainMessage.datalogger_ownership_taken m s = (
    record m {
      error = if has_owner m.owner then DataloggingError.unexpected_claim else m.error;
      owner = some sender;
    },
    s,
  )
  process_datalogging_loop_msg sender Loop2MainMessage.datalogger_ownership_released m s = (
    record m {
      error = if is_loop sender m.owner then m.error else DataloggingError.unexpected_release;
      owner = none;
      pending_ownership_release = false;
    },
    record s { datalogger = DataLogger.reset s.datalogger },
  )
  process_datalogging_loop_msg sender Loop2MainMessage.datalogger_data_acquired m s = (m, s)
  process_datalogging_loop_msg sender
        (Loop2MainMessage.datalogger_status_update state bytes counter) m s =
      (
        record m {
          threadsafe_data = record {
            datalogger_state = state;
            bytes_to_acquire_from_trigger_to_completion = bytes;
            write_counter_since_trigger = counter;
          };
          reading_in_progress = if data_acquired state then m.reading_in_progress else false;
        },
        s,
      )

  -- One round of the loop of `process_loops`.
  unfoldable pub process_loop :
      ℕ → Loops → Datalogging → Shared Data → Loops × Datalogging × Shared Data
  process_loop i loops m s =
      let loop = loops i in
      let popped = record loop { loop2main_msg = clear loop.loop2main_msg } in
      elim loop.loop2main_msg [
        | none ↦ (loops, m, s)
        | some msg ↦
            let r = process_datalogging_loop_msg i msg m s in (update loops i popped, r.0, r.1)
      ]

  -- The loops from `i` on; `n` of them are left.
  unfoldable pub process_loops_from :
      ℕ → ℕ → Loops → Datalogging → Shared Data → Loops × Datalogging × Shared Data
  process_loops_from zero i loops m s = (loops, m, s)
  process_loops_from (suc n) i loops m s =
      let r = process_loop i loops m s in process_loops_from n (i + 1) r.0 r.1 r.2

  unfoldable pub process_loops :
      ℕ → Loops → Datalogging → Shared Data → Loops × Datalogging × Shared Data
  process_loops loop_count loops m s = process_loops_from loop_count 0 loops m s

  unfoldable pub logic_without_owner : Loops → Datalogging → Shared Data → Loops × Datalogging
  logic_without_owner loops m s =
      let t = m.threadsafe_data in
      let d = s.datalogger in
      let m' = record m { threadsafe_data = record t { datalogger_state = d.state } } in
      let r : Loops × Datalogging = (elim m.new_owner [
        | none ↦ (loops, m')
        | some k ↦ logic_of_new_owner k loops m'
      ]) in
      let last = r.1 in
      (r.0, record last { request_arm_trigger = false; request_disarm_trigger = false })

  unfoldable pub process_datalogging_logic : Loops → Datalogging → Shared Data → Loops × Datalogging
  process_datalogging_logic loops m s =
      if is_no_error m.error
      then elim m.owner [
        | none ↦ logic_without_owner loops m s
        | some owner ↦ logic_of_owner owner loops m
      ]
      else (loops, m)
