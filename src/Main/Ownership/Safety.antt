-- ===== src/Main/Ownership/Safety.antt =====
-- The invariant of the datalogger's ownership, by induction on what is reachable.
use scrutiny_embedded.Base.{ℕ, false, ◌≡◌, ◌⊎◌, ◌∙◌, inl, inr, sym, ap, subst, arith, none, some}
use scrutiny_embedded.LoopHandler.{Loop2MainMessage}
use scrutiny_embedded.LoopHandler.Messages.{is_quiet_in, is_quiet_out}
use scrutiny_embedded.Main.Ownership.{DataloggingError}
use scrutiny_embedded.Main.Ownership.Steps.{System, IsSettled, Step, Reach}
use scrutiny_embedded.Main.Ownership.Phases.{Phase}
use scrutiny_embedded.Main.Ownership.LoopMoves.{run_loop-Phase}
use scrutiny_embedded.Main.Ownership.MainMoves.{hear-Phase}
use scrutiny_embedded.Main.Ownership.LogicMoves.{think-Phase}
use scrutiny_embedded.Main.Ownership.RequestMoves.{
  configure-Phase, reset-Phase, arm-Phase, disarm-Phase,
}

-- The state that `MainHandler::init` leaves: nobody owns the datalogger, nobody is asked to, and the
-- mailboxes are empty.
pub record IsInitial {Data : Type 0} (s : System Data) : Type 0 where
  pub error : (s.main).error ≡ DataloggingError.no_error
  pub main_owner : (s.main).owner ≡ none
  pub request : (s.main).request_ownership_release ≡ false
  pub pending : (s.main).pending_ownership_release ≡ false
  pub owner : (s.shared).owner ≡ none
  pub ins : (i : ℕ) → (s.loops i).main2loop_msg ≡ none
  pub outs : (i : ℕ) → (s.loops i).loop2main_msg ≡ none

module _ {Data : Type 0} where
  IsInitial-Phase : {s : System Data} → IsInitial s → Phase s
  IsInitial-Phase initial =
      Phase.free
        (record {
          error = initial.error;
          owner = initial.main_owner;
          request = initial.request;
          pending = initial.pending;
        })
        initial.owner
        λ j. record {
          in_mailbox = ap is_quiet_in (initial.ins j);
          out_mailbox = ap is_quiet_out (initial.outs j);
        }

  Step-Phase : {s t : System Data} → Step s t → Phase s → Phase t
  Step-Phase {s} (Step.run_loop main_handler evaluate i timestep) phase =
      run_loop-Phase main_handler evaluate timestep s i phase
  Step-Phase {s} (Step.hear i) phase = hear-Phase s i phase
  Step-Phase {s} Step.think phase = think-Phase s phase
  Step-Phase {s} (Step.configure code decoded configured loop settled) phase =
      configure-Phase s code decoded configured loop settled phase
  Step-Phase {s} Step.reset phase = reset-Phase s phase
  Step-Phase {s} Step.arm phase = arm-Phase s phase
  Step-Phase {s} Step.disarm phase = disarm-Phase s phase

  Reach-Phase : {s t : System Data} → IsInitial s → Reach s t → Phase t
  Reach-Phase initial Reach.here = IsInitial-Phase initial
  Reach-Phase initial (Reach.next r step) = Step-Phase step (Reach-Phase initial r)

  -- The main handler finds no error; a loop that owns the datalogger is the one that the main handler takes for
  -- the owner, or the claim is still under way; and in a settled state with no owner for the main
  -- handler, where it may write the configuration, no loop owns the datalogger.
  pub record IsConsistent (s : System Data) : Type 0 where
    pub no_error : (s.main).error ≡ DataloggingError.no_error
    pub same_owner :
        (i : ℕ)
        → (s.shared).owner ≡ some i
        → ((s.main).owner ≡ some i)
          ⊎ ((s.loops i).loop2main_msg ≡ some Loop2MainMessage.datalogger_ownership_taken)
    pub exclusive : IsSettled s → (s.main).owner ≡ none → (s.shared).owner ≡ none

  Phase-IsConsistent : {s : System Data} → Phase s → IsConsistent s
  Phase-IsConsistent (Phase.free m own quiet) = record {
    no_error = m.error;
    same_owner = λ i e. absurd (ground (arith, own, e));
    exclusive = λ settled e. own;
  }
  Phase-IsConsistent (Phase.offered i m new own take quiet others) = record {
    no_error = m.error;
    same_owner = λ j e. absurd (ground (arith, own, e));
    exclusive = λ settled e. own;
  }
  Phase-IsConsistent {s} (Phase.taken i m new own in_mailbox out_mailbox others) = record {
    no_error = m.error;
    same_owner = λ j e.
        let here : i ≡ j = ground (arith, own, e) in
        inr (
          subst (λ k. (s.loops k).loop2main_msg ≡ some Loop2MainMessage.datalogger_ownership_taken)
            here out_mailbox);
    exclusive = λ settled e. absurd (settled.not_taken i out_mailbox);
  }
  Phase-IsConsistent (Phase.owned i m own out_mailbox not_take release once others) =
      let owner = m.owner in
      record {
        no_error = m.error;
        same_owner = λ j e. inl (owner ∙ sym own ∙ e);
        exclusive = λ settled e. absurd (ground (arith, owner, e));
      }
  Phase-IsConsistent (Phase.released i m own out_mailbox in_mailbox pending request others) =
      let owner = m.owner in
      record {
        no_error = m.error;
        same_owner = λ j e. absurd (ground (arith, own, e));
        exclusive = λ settled e. own;
      }

-- From the state that the initialisation leaves, through any calls of the loops, of the main handler's
-- rounds and logic and of its requests, in any order, with the datalogger configured in settled
-- states only, the main handler finds no ownership error, the loop that owns the datalogger is its
-- owner for the main handler or has just claimed it, and in a settled state with no owner for
-- the main handler no loop owns the datalogger.
pub Reach-IsConsistent :
    {Data : Type 0} {s t : System Data} → IsInitial s → Reach s t → IsConsistent t
Reach-IsConsistent initial r = Phase-IsConsistent (Reach-Phase initial r)
