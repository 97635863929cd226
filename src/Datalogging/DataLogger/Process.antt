-- ===== src/Datalogging/DataLogger/Process.antt =====
-- `DataLogger::process` with its parts: the acquisition, the trigger and the end of an acquisition.
use scrutiny_embedded.Base.{
  ℕ, Bool, true, false, not, ◌&&◌, ◌||◌, ◌+◌, ◌-◌, ◌*◌, ltb, leb, if◌then◌else◌, max, u16, u32,
  ◌>>>◌, Option, none, some,
}
use scrutiny_embedded.Timebase.{Timebase, get_timestamp, has_expired}
use scrutiny_embedded.Datalogging.Configuration.{MainHandler, max_operands}
use scrutiny_embedded.Datalogging.RawEncoder.{
  encode_next_entry, reset_write_counter, get_write_cursor, get_data_write_counter,
  remaining_bytes_to_full,
}
use scrutiny_embedded.Datalogging.DataLogger.{DataLogger, State, is_armed, is_triggered, is_running}
use scrutiny_embedded.Datalogging.DataLogger.Configure.{condition_operand_count}

module _ {ℓ} {Data : Type ℓ} where
  unfoldable pub stamp_trigger_point : Timebase → DataLogger Data → DataLogger Data
  stamp_trigger_point timebase d =
      let c = d.config in
      let multiplier = 255 - c.probe_location in
      let after = u32 ((d.buffer_size * multiplier) >>> 8) in
      let encoder = reset_write_counter d.encoder in
      let wanted = if encoder.full then after else max after (remaining_bytes_to_full encoder) in
      record d {
        trigger_cursor_location = get_write_cursor d.encoder;
        trigger_timestamp = get_timestamp timebase;
        encoder = encoder;
        remaining_data_to_write = if ltb d.buffer_size wanted then d.buffer_size else wanted;
      }

  unfoldable pub acquisition_is_completed : Timebase → DataLogger Data → Bool
  acquisition_is_completed timebase d = completed_in d.state
    where
      completed_in : State → Bool
      completed_in State.acquisition_completed = true
      completed_in State.triggered =
          let c = d.config in
          (ltb 0 c.timeout_100ns && has_expired timebase d.trigger_timestamp c.timeout_100ns)
          || leb d.remaining_data_to_write (get_data_write_counter d.encoder)
      completed_in _ = false

  unfoldable pub process_acquisition : MainHandler → Timebase → DataLogger Data → DataLogger Data
  process_acquisition main_handler timebase d =
      let c = d.config in
      let counter = u16 (d.decimation_counter + 1) in
      if leb c.decimation counter
      then record d {
        decimation_counter = 0;
        encoder = encode_next_entry main_handler timebase d.config d.encoder;
      }
      else record d { decimation_counter = counter }

  -- `evaluate` fetches the operands and gives the condition's result on them, with what it keeps, or
  -- nothing where an operand cannot be fetched.
  unfoldable pub hold_condition : Timebase → DataLogger Data → Data → Bool → DataLogger Data × Bool
  hold_condition timebase d kept condition_result =
      let t = d.config.trigger in
      let rising =
        if condition_result && not d.previous_val
        then get_timestamp timebase
        else d.rising_edge_timestamp in
      (
        record d {
          rising_edge_timestamp = rising;
          previous_val = condition_result;
          condition_data = kept;
        },
        condition_result && has_expired timebase rising t.hold_time_100ns,
      )

  unfoldable pub check_trigger :
      (Data → Option (Bool × Data)) → Timebase → DataLogger Data → DataLogger Data × Bool
  check_trigger evaluate timebase d =
      let result : DataLogger Data × Bool = (elim (evaluate d.condition_data) [
        | none ↦ (d, false)
        | some r ↦ hold_condition timebase d r.1 r.0
      ]) in
      if not (is_armed d.state)
      then (d, false)
      else if ltb max_operands (condition_operand_count d.active_condition)
      then (d, false)
      else if d.manual_trigger
      then (record d { manual_trigger = false; previous_val = true }, true)
      else result

  -- The part of `process` behind the acquisition where the logger is armed, with whether the user's
  -- callback is called.
  unfoldable pub process_armed :
      (Data → Option (Bool × Data)) → Timebase → DataLogger Data → DataLogger Data × Bool
  process_armed evaluate timebase d =
      let checked = check_trigger evaluate timebase d in
      if not (is_armed d.state)
      then (d, false)
      else if checked.1
      then (
        let s = stamp_trigger_point timebase checked.0 in record s { state = State.triggered },
        true,
      )
      else checked

  unfoldable pub process_triggered : Timebase → DataLogger Data → DataLogger Data
  process_triggered timebase d =
      if is_triggered d.state && acquisition_is_completed timebase d
      then record d {
        acquisition_id = u16 (d.acquisition_id + 1);
        state = State.acquisition_completed;
        log_points_after_trigger = d.encoder.entry_write_counter;
      }
      else d

  unfoldable pub process :
      MainHandler
      → (Data → Option (Bool × Data))
      → Timebase
      → DataLogger Data
      → DataLogger Data × Bool
  process main_handler evaluate timebase d =
      let acquired = process_acquisition main_handler timebase d in
      let fired = process_armed evaluate timebase acquired in
      if not (is_running d.state)
      then (d, false)
      else if d.encoder.error
      then (record d { state = State.error }, false)
      else (process_triggered timebase fired.0, fired.1)

  unfoldable pub get_bytes_to_acquire_from_trigger_to_completion : DataLogger Data → ℕ
  get_bytes_to_acquire_from_trigger_to_completion d =
      if is_triggered d.state then d.remaining_data_to_write else 0

  unfoldable pub data_counter_since_trigger : DataLogger Data → ℕ
  data_counter_since_trigger d =
      if is_triggered d.state then get_data_write_counter d.encoder else 0
