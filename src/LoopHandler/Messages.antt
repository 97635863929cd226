-- ===== src/LoopHandler/Messages.antt =====
-- What one call of a loop does to its mailboxes and to the owner of the datalogger.
use scrutiny_embedded.Base.{ℕ, Bool, true, false, ◌≡◌, arith, Option, none, some}
use scrutiny_embedded.Datalogging.Configuration.{MainHandler}
use scrutiny_embedded.LoopHandler.{
  has_content, Main2LoopMessage, Loop2MainMessage, LoopHandler, Shared, is_loop, handle_message,
  receive, report, status_update, serve, process_common,
}

-- A message that is not about ownership.
abbrev pub is_quiet_in : Option Main2LoopMessage → Bool
is_quiet_in (some Main2LoopMessage.take_datalogger_ownership) = false
is_quiet_in (some Main2LoopMessage.release_datalogger_ownership) = false
is_quiet_in _ = true

abbrev pub is_quiet_out : Option Loop2MainMessage → Bool
is_quiet_out (some Loop2MainMessage.datalogger_ownership_taken) = false
is_quiet_out (some Loop2MainMessage.datalogger_ownership_released) = false
is_quiet_out _ = true

pub record IsQuiet (loop : LoopHandler) : Type 0 where
  pub in_mailbox : is_quiet_in loop.main2loop_msg ≡ true
  pub out_mailbox : is_quiet_out loop.loop2main_msg ≡ true

module _ {Data : Type 0} (main_handler : MainHandler) (evaluate : Data → Option (Bool × Data))
    (i timestep : ℕ) where
  receive_quiet :
      (loop : LoopHandler) (s : Shared Data)
      → is_loop i s.owner ≡ false
      → is_quiet_in loop.main2loop_msg ≡ true
      → let r = receive i loop s in
        (is_quiet_in r.0.main2loop_msg ≡ true)
        × (r.0.loop2main_msg ≡ loop.loop2main_msg)
        × (r.1.owner ≡ s.owner)
  unfolding receive handle_message
  receive_quiet loop s other quiet = ground (arith, other, quiet)

  serve-other :
      (loop : LoopHandler) (s : Shared Data)
      → is_loop i s.owner ≡ false
      → serve main_handler evaluate i loop s ≡ (loop, s)
  unfolding serve
  serve-other loop s other = ground (arith, other)

  serve-owner :
      (loop : LoopHandler) (s : Shared Data)
      → is_loop i s.owner ≡ true
      → is_quiet_out loop.loop2main_msg ≡ true
      → let r = serve main_handler evaluate i loop s in
        (r.0.main2loop_msg ≡ loop.main2loop_msg)
        × (is_quiet_out r.0.loop2main_msg ≡ true)
        × (r.1.owner ≡ s.owner)
  unfolding serve report status_update
  serve-owner loop s own quiet =
      (ground (arith, own), ground (arith, own, quiet), ground (arith, own))

  -- A loop whose last message has not been heard yet does nothing but serve.
  pub process_common-full :
      (loop : LoopHandler) (s : Shared Data)
      → has_content loop.loop2main_msg ≡ true
      → let r = process_common main_handler evaluate i timestep loop s in
        (r.0.main2loop_msg ≡ loop.main2loop_msg)
        × (r.0.loop2main_msg ≡ loop.loop2main_msg)
        × (r.1.owner ≡ s.owner)
  unfolding process_common receive serve report
  process_common-full loop s full =
      (ground (arith, full), ground (arith, full), ground (arith, full))

  pub process_common-IsQuiet :
      (loop : LoopHandler) (s : Shared Data)
      → is_loop i s.owner ≡ false
      → IsQuiet loop
      → let r = process_common main_handler evaluate i timestep loop s in
        IsQuiet r.0 × (r.1.owner ≡ s.owner)
  unfolding process_common receive handle_message serve
  process_common-IsQuiet loop s other quiet =
      let a = quiet.in_mailbox in
      let b = quiet.out_mailbox in
      (
        record { in_mailbox = ground (arith, other, a); out_mailbox = ground (arith, other, a, b) },
        ground (arith, other, a),
      )

  -- A loop that is asked to own the datalogger does so, and tells.
  pub process_common-take :
      (loop : LoopHandler) (s : Shared Data)
      → loop.main2loop_msg ≡ some Main2LoopMessage.take_datalogger_ownership
      → has_content loop.loop2main_msg ≡ false
      → let r = process_common main_handler evaluate i timestep loop s in
        (r.0.main2loop_msg ≡ none)
        × (r.0.loop2main_msg ≡ some Loop2MainMessage.datalogger_ownership_taken)
        × (r.1.owner ≡ some i)
  unfolding process_common receive handle_message serve report
  process_common-take loop s take free =
      (ground (arith, take, free), ground (arith, take, free), ground (arith, take, free))

  -- A loop that is told nothing and does not own the datalogger says nothing.
  pub process_common-idle :
      (loop : LoopHandler) (s : Shared Data)
      → is_loop i s.owner ≡ false
      → loop.main2loop_msg ≡ none
      → loop.loop2main_msg ≡ none
      → let r = process_common main_handler evaluate i timestep loop s in
        (r.0.main2loop_msg ≡ none) × (r.0.loop2main_msg ≡ none) × (r.1.owner ≡ s.owner)
  unfolding process_common receive serve
  process_common-idle loop s other empty silent = (
    ground (arith, other, empty, silent),
    ground (arith, other, empty, silent),
    ground (arith, other, empty, silent),
  )

  pub process_common-release :
      (loop : LoopHandler) (s : Shared Data)
      → is_loop i s.owner ≡ true
      → loop.main2loop_msg ≡ some Main2LoopMessage.release_datalogger_ownership
      → has_content loop.loop2main_msg ≡ false
      → let r = process_common main_handler evaluate i timestep loop s in
        (r.0.main2loop_msg ≡ none)
        × (r.0.loop2main_msg ≡ some Loop2MainMessage.datalogger_ownership_released)
        × (r.1.owner ≡ none)
  unfolding process_common receive handle_message serve report
  process_common-release loop s own release free = (
    ground (arith, own, release, free),
    ground (arith, own, release, free),
    ground (arith, own, release, free),
  )

  pub process_common-owner :
      (loop : LoopHandler) (s : Shared Data)
      → is_loop i s.owner ≡ true
      → IsQuiet loop
      → let r = process_common main_handler evaluate i timestep loop s in
        IsQuiet r.0 × (r.1.owner ≡ s.owner)
  unfolding process_common receive handle_message serve report status_update
  process_common-owner loop s own quiet =
      let a = quiet.in_mailbox in
      let b = quiet.out_mailbox in
      (
        record { in_mailbox = ground (arith, own, a); out_mailbox = ground (arith, own, a, b) },
        ground (arith, own, a),
      )
