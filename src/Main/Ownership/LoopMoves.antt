-- ===== src/Main/Ownership/LoopMoves.antt =====
-- A call of a loop keeps the datalogger's ownership in one of its phases.
use scrutiny_embedded.Base.{
  ℕ, Bool, true, false, not, ◌&&◌, ◌==◌, ◌≡◌, ◌∙◌, inl, inr, sym, ap, subst, arith, Option, none,
  some, Bool-cases,
}
use scrutiny_embedded.Datalogging.Configuration.{MainHandler}
use scrutiny_embedded.LoopHandler.{
  has_content, Main2LoopMessage, Loop2MainMessage, LoopHandler, Shared, is_loop, process_common,
}
use scrutiny_embedded.LoopHandler.Messages.{
  is_quiet_in, is_quiet_out, IsQuiet, process_common-full, process_common-IsQuiet,
  process_common-take, process_common-release, process_common-owner,
}
use scrutiny_embedded.Main.Ownership.Steps.{System, run_loop_step}
use scrutiny_embedded.Main.Ownership.Phases.{
  is_release, is_take, IsFree, IsOwned, OthersQuiet, Phase, IsQuiet-update, OthersQuiet-update_self,
  OthersQuiet-update_other, update-other, update_self, eq-swap, is_release-eq, is_quiet_in-of,
  is_quiet_in-not,
}

module _ {Data : Type 0} (main_handler : MainHandler) (evaluate : Data → Option (Bool × Data))
    (timestep : ℕ) (s : System Data) where
  abbrev result : ℕ → LoopHandler × Shared Data
  result k = process_common main_handler evaluate k timestep (s.loops k) s.shared

  abbrev after : ℕ → System Data
  after k = run_loop_step main_handler evaluate k timestep s

  run_free :
      (k : ℕ)
      → IsFree s.main
      → (s.shared).owner ≡ none
      → ((j : ℕ) → IsQuiet (s.loops j))
      → Phase (after k)
  run_free k m own quiet =
      let moved =
        process_common-IsQuiet main_handler evaluate k timestep (s.loops k) s.shared
          (ground (arith, own)) (quiet k) in
      Phase.free m (moved.1 ∙ own)
        (λ j. IsQuiet-update s.loops k j (result k).0 moved.0 (λ _. quiet j))

  run_offered_self :
      (i : ℕ)
      → IsFree s.main
      → (s.main).new_owner ≡ none
      → (s.shared).owner ≡ none
      → (s.loops i).main2loop_msg ≡ some Main2LoopMessage.take_datalogger_ownership
      → is_quiet_out (s.loops i).loop2main_msg ≡ true
      → OthersQuiet i s.loops
      → Phase (after i)
  run_offered_self i m new own take quiet others =
      let others' = OthersQuiet-update_self i s.loops (result i).0 others in
      let self = update_self s.loops i (result i).0 in
      elim (Bool-cases (has_content (s.loops i).loop2main_msg)) [
        | inl full ↦
            let kept =
              process_common-full main_handler evaluate i timestep (s.loops i) s.shared full in
            Phase.offered i m new (kept.2 ∙ own) (ap (λ l. l.main2loop_msg) self ∙ kept.0 ∙ take)
              (ap (λ l. is_quiet_out l.loop2main_msg) self ∙ ap is_quiet_out kept.1 ∙ quiet) others'
        | inr empty ↦
            let moved =
              process_common-take main_handler evaluate i timestep (s.loops i) s.shared take
                empty in
            Phase.taken i m new moved.2
              (ap (λ l. is_quiet_in l.main2loop_msg) self ∙ ap is_quiet_in moved.0)
              (ap (λ l. l.loop2main_msg) self ∙ moved.1) others'
      ]

  run_taken_self :
      (i : ℕ)
      → IsFree s.main
      → (s.main).new_owner ≡ none
      → (s.shared).owner ≡ some i
      → is_quiet_in (s.loops i).main2loop_msg ≡ true
      → (s.loops i).loop2main_msg ≡ some Loop2MainMessage.datalogger_ownership_taken
      → OthersQuiet i s.loops
      → Phase (after i)
  run_taken_self i m new own in_mailbox out_mailbox others =
      let self = update_self s.loops i (result i).0 in
      let kept =
        process_common-full main_handler evaluate i timestep (s.loops i) s.shared
          (ground (arith, out_mailbox)) in
      Phase.taken i m new (kept.2 ∙ own)
        (ap (λ l. is_quiet_in l.main2loop_msg) self ∙ ap is_quiet_in kept.0 ∙ in_mailbox)
        (ap (λ l. l.loop2main_msg) self ∙ kept.1 ∙ out_mailbox)
        (OthersQuiet-update_self i s.loops (result i).0 others)

  run_released_self :
      (i : ℕ)
      → IsOwned i s.main
      → (s.shared).owner ≡ none
      → (s.loops i).loop2main_msg ≡ some Loop2MainMessage.datalogger_ownership_released
      → is_quiet_in (s.loops i).main2loop_msg ≡ true
      → (s.main).pending_ownership_release ≡ true
      → (s.main).request_ownership_release ≡ false
      → OthersQuiet i s.loops
      → Phase (after i)
  run_released_self i m own out_mailbox in_mailbox pending request others =
      let self = update_self s.loops i (result i).0 in
      let kept =
        process_common-full main_handler evaluate i timestep (s.loops i) s.shared
          (ground (arith, out_mailbox)) in
      Phase.released i m (kept.2 ∙ own) (ap (λ l. l.loop2main_msg) self ∙ kept.1 ∙ out_mailbox)
        (ap (λ l. is_quiet_in l.main2loop_msg) self ∙ ap is_quiet_in kept.0 ∙ in_mailbox) pending
        request (OthersQuiet-update_self i s.loops (result i).0 others)

  -- Another loop than that of the phase.
  run_other-IsQuiet :
      (i k : ℕ)
      → (k == i) ≡ false
      → OthersQuiet i s.loops
      → is_loop k (s.shared).owner ≡ false
      → IsQuiet (result k).0 × ((result k).1.owner ≡ (s.shared).owner)
  unfolding OthersQuiet
  run_other-IsQuiet i k other others not_owner =
      process_common-IsQuiet main_handler evaluate k timestep (s.loops k) s.shared not_owner
        (others k (eq-swap k i other))

  run_owned_self :
      (i : ℕ)
      → IsOwned i s.main
      → (s.shared).owner ≡ some i
      → is_quiet_out (s.loops i).loop2main_msg ≡ true
      → is_take (s.loops i).main2loop_msg ≡ false
      → is_release (s.loops i).main2loop_msg ≡ (s.main).pending_ownership_release
      → (not ((s.main).request_ownership_release && (s.main).pending_ownership_release) ≡ true)
      → OthersQuiet i s.loops
      → Phase (after i)
  run_owned_self i m own out_mailbox not_take release once others =
      let others' = OthersQuiet-update_self i s.loops (result i).0 others in
      let self = update_self s.loops i (result i).0 in
      let is_owner : is_loop i (s.shared).owner ≡ true = ground (arith, own) in
      elim (Bool-cases (has_content (s.loops i).loop2main_msg)) [
        | inl full ↦
            let kept =
              process_common-full main_handler evaluate i timestep (s.loops i) s.shared full in
            Phase.owned i m (kept.2 ∙ own)
              (ap (λ l. is_quiet_out l.loop2main_msg) self ∙ ap is_quiet_out kept.1 ∙ out_mailbox)
              (ap (λ l. is_take l.main2loop_msg) self ∙ ap is_take kept.0 ∙ not_take)
              (ap (λ l. is_release l.main2loop_msg) self ∙ ap is_release kept.0 ∙ release) once
              others'
        | inr empty ↦ elim (Bool-cases (is_release (s.loops i).main2loop_msg)) [
          | inl asked ↦
              let moved =
                process_common-release main_handler evaluate i timestep (s.loops i) s.shared
                  is_owner (is_release-eq (s.loops i).main2loop_msg asked) empty in
              let pending = sym release ∙ asked in
              Phase.released i m moved.2 (ap (λ l. l.loop2main_msg) self ∙ moved.1)
                (ap (λ l. is_quiet_in l.main2loop_msg) self ∙ ap is_quiet_in moved.0) pending
                (ground (arith, once, pending)) others'
          | inr not_asked ↦
              let moved =
                process_common-owner main_handler evaluate i timestep (s.loops i) s.shared is_owner
                  (record {
                    in_mailbox = is_quiet_in-of (s.loops i).main2loop_msg not_asked not_take;
                    out_mailbox = out_mailbox;
                  }) in
              let quiet = is_quiet_in-not (result i).0.main2loop_msg moved.0.in_mailbox in
              Phase.owned i m (moved.1 ∙ own)
                (ap (λ l. is_quiet_out l.loop2main_msg) self ∙ moved.0.out_mailbox)
                (ap (λ l. is_take l.main2loop_msg) self ∙ quiet.1)
                (ap (λ l. is_release l.main2loop_msg) self ∙ quiet.0 ∙ sym not_asked ∙ release) once
                others'
        ]
      ]

  run_other : (k : ℕ) → Phase s → Phase (after k)
  run_other k (Phase.free m own quiet) = run_free k m own quiet
  run_other k (Phase.offered i m new own take quiet others) = elim (Bool-cases (k == i)) [
    | inl same ↦
        subst (λ j. Phase (after j)) (ground (arith, same))
          (run_offered_self i m new own take quiet others)
    | inr other ↦
        let moved = run_other-IsQuiet i k other others (ground (arith, own)) in
        let kept = update-other s.loops k i (result k).0 other in
        Phase.offered i m new (moved.1 ∙ own) (ap (λ l. l.main2loop_msg) kept ∙ take)
          (ap (λ l. is_quiet_out l.loop2main_msg) kept ∙ quiet)
          (OthersQuiet-update_other i k s.loops (result k).0 moved.0 others)
  ]
  run_other k (Phase.taken i m new own in_mailbox out_mailbox others) = elim (Bool-cases (k == i)) [
    | inl same ↦
        subst (λ j. Phase (after j)) (ground (arith, same))
          (run_taken_self i m new own in_mailbox out_mailbox others)
    | inr other ↦
        let moved = run_other-IsQuiet i k other others (ground (arith, own, other)) in
        let kept = update-other s.loops k i (result k).0 other in
        Phase.taken i m new (moved.1 ∙ own)
          (ap (λ l. is_quiet_in l.main2loop_msg) kept ∙ in_mailbox)
          (ap (λ l. l.loop2main_msg) kept ∙ out_mailbox)
          (OthersQuiet-update_other i k s.loops (result k).0 moved.0 others)
  ]
  run_other k (Phase.owned i m own out_mailbox not_take release once others) =
      elim (Bool-cases (k == i)) [
        | inl same ↦
            subst (λ j. Phase (after j)) (ground (arith, same))
              (run_owned_self i m own out_mailbox not_take release once others)
        | inr other ↦
            let moved = run_other-IsQuiet i k other others (ground (arith, own, other)) in
            let kept = update-other s.loops k i (result k).0 other in
            Phase.owned i m (moved.1 ∙ own)
              (ap (λ l. is_quiet_out l.loop2main_msg) kept ∙ out_mailbox)
              (ap (λ l. is_take l.main2loop_msg) kept ∙ not_take)
              (ap (λ l. is_release l.main2loop_msg) kept ∙ release) once
              (OthersQuiet-update_other i k s.loops (result k).0 moved.0 others)
      ]
  run_other k (Phase.released i m own out_mailbox in_mailbox pending request others) =
      elim (Bool-cases (k == i)) [
        | inl same ↦
            subst (λ j. Phase (after j)) (ground (arith, same))
              (run_released_self i m own out_mailbox in_mailbox pending request others)
        | inr other ↦
            let moved = run_other-IsQuiet i k other others (ground (arith, own)) in
            let kept = update-other s.loops k i (result k).0 other in
            Phase.released i m (moved.1 ∙ own) (ap (λ l. l.loop2main_msg) kept ∙ out_mailbox)
              (ap (λ l. is_quiet_in l.main2loop_msg) kept ∙ in_mailbox) pending request
              (OthersQuiet-update_other i k s.loops (result k).0 moved.0 others)
      ]

-- A call of any loop.
pub run_loop-Phase :
    {Data : Type 0} (main_handler : MainHandler) (evaluate : Data → Option (Bool × Data))
    (timestep : ℕ) (s : System Data) (k : ℕ)
    → Phase s
    → Phase (run_loop_step main_handler evaluate k timestep s)
run_loop-Phase main_handler evaluate timestep s k phase =
    run_other main_handler evaluate timestep s k phase
