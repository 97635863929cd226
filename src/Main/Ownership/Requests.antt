-- ===== src/Main/Ownership/Requests.antt =====
-- What the requests of `MainHandler::process_datalog_control` do to the ownership of the datalogger.
use scrutiny_embedded.Base.{ℕ, true, false, not, ◌||◌, if◌then◌else◌, some}
use scrutiny_embedded.Protocol.ResponseCode.{ResponseCode, is_ok}
use scrutiny_embedded.Datalogging.DataLogger.{DataLogger}
use scrutiny_embedded.Datalogging.DataLogger
use scrutiny_embedded.Datalogging.Configuration.{Configuration, MainHandler}
use scrutiny_embedded.Datalogging.DataLogger.Configure.{configure}
use scrutiny_embedded.LoopHandler.{Shared}
use scrutiny_embedded.Main.Config.{Config}
use scrutiny_embedded.Main.Ownership.{Datalogging, Loops, has_owner}
use scrutiny_embedded.Main.Ownership.Checks.{check_request}

-- With an owner: it is asked to release, unless it has been.
unfoldable pub ask_release : Datalogging → Datalogging
ask_release m =
    if m.pending_ownership_release then m else record m { request_ownership_release = true }

unfoldable pub request_arm_trigger : Datalogging → Datalogging × ResponseCode
request_arm_trigger m =
    if not (has_owner m.owner) || m.pending_ownership_release
    then (m, ResponseCode.failure_to_proceed)
    else (record m { request_arm_trigger = true }, ResponseCode.ok)

unfoldable pub request_disarm_trigger : Datalogging → Datalogging × ResponseCode
request_disarm_trigger m =
    if not (has_owner m.owner) || m.pending_ownership_release
    then (m, ResponseCode.failure_to_proceed)
    else (record m { request_disarm_trigger = true }, ResponseCode.ok)

module _ {Data : Type 0} where
  -- ConfigureDatalog, but the decoding and the checks: `code` is what they give, `decoded` the datalogger with
  -- the configuration that is decoded, and `configured` the same after its `configure`.
  unfoldable pub finish_configure :
      ResponseCode
      → DataLogger Data
      → DataLogger Data
      → ℕ
      → Datalogging
      → Shared Data
      → Datalogging × Shared Data × ResponseCode
  unfolding ask_release
  finish_configure code decoded configured loop m s =
      let m' = record m { reading_in_progress = false } in
      if has_owner m.owner
      then (ask_release m', s, ResponseCode.process_again)
      else if not (is_ok code)
      then (m', record s { datalogger = DataLogger.reset decoded }, code)
      else if configured.config_valid
      then (
        record m' { new_owner = some loop },
        record s { datalogger = configured },
        ResponseCode.ok,
      )
      else (m', record s { datalogger = DataLogger.reset configured }, ResponseCode.invalid_request)

  -- The whole of ConfigureDatalog. `decoded` is what `decode_datalogging_configure_request` gives: a code, the
  -- configuration that it writes, the identifiers of the loop and of the configuration.
  unfoldable pub request_configure :
      Config
      → Loops
      → MainHandler
      → (Data → Data)
      → ResponseCode × Configuration × ℕ × ℕ
      → Datalogging
      → Shared Data
      → Datalogging × Shared Data × ResponseCode
  unfolding finish_configure check_request
  request_configure config loops main_handler reset_data
        (decode_code, configuration, loop_id, config_id) m s =
      let d = s.datalogger in
      let decoded = record d { config = configuration } in
      let configured = configure main_handler reset_data decoded config_id in
      let code =
        if not (is_ok decode_code)
        then decode_code
        else check_request config loops configuration loop_id in
      finish_configure code decoded configured loop_id m s

  -- ResetDatalogger.
  unfoldable pub request_reset :
      Datalogging → Shared Data → Datalogging × Shared Data × ResponseCode
  unfolding ask_release
  request_reset m s =
      if has_owner m.owner
      then (ask_release m, s, ResponseCode.process_again)
      else (m, record s { datalogger = DataLogger.reset s.datalogger }, ResponseCode.ok)
