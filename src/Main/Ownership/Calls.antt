-- ===== src/Main/Ownership/Calls.antt =====
-- A call of `process` in which a request to configure the datalogger is accepted.
use scrutiny_embedded.Base.{ℕ, true, false, ◌==◌, ◌≡◌, ◌∙◌, sym, ap, arith, none, some, subst}
use scrutiny_embedded.Protocol.ResponseCode.{ResponseCode}
use scrutiny_embedded.Datalogging.DataLogger.{DataLogger}
use scrutiny_embedded.LoopHandler.{Main2LoopMessage}
use scrutiny_embedded.Main.Ownership.{
  DataloggingError, process_loops, process_datalogging_logic, logic_without_owner,
  logic_of_new_owner,
}
use scrutiny_embedded.Main.Ownership.Requests.{finish_configure}
use scrutiny_embedded.Main.Ownership.Steps.{System, think_step, configure_step}
use scrutiny_embedded.Main.Process.{process_loops_and_logic}
use scrutiny_embedded.Main.Ownership.Hearing.{after_none}

module _ {Data : Type 0} where
  -- The parts of the state that the race is about, while nobody owns the datalogger for the main handler.
  pub record IsUnclaimed (s : System Data) : Type 0 where
    pub error : (s.main).error ≡ DataloggingError.no_error
    pub owner : (s.main).owner ≡ none
    pub new_owner : (s.main).new_owner ≡ none
    pub silent : (k : ℕ) → (s.loops k).loop2main_msg ≡ none

  -- Where no loop has said anything, the rounds do nothing.
  process_loops_and_logic-silent :
      (s : System Data) (count : ℕ)
      → ((k : ℕ) → (s.loops k).loop2main_msg ≡ none)
      → process_loops_and_logic s count ≡ think_step s
  unfolding process_loops_and_logic process_loops
  process_loops_and_logic-silent s count silent =
      ap
        (λ r.
          let t = process_datalogging_logic r.0 r.1 r.2 in
          record { loops = t.0; main = t.1; shared = r.2 })
        (after_none count 0 s.loops s.main s.shared silent)

  think_lem :
      (s : System Data)
      → IsUnclaimed s
      → IsUnclaimed (think_step s) × ((k : ℕ) → (think_step s).loops k ≡ s.loops k)
  unfolding process_datalogging_logic logic_without_owner
  think_lem s f =
      let error = f.error in
      let owner = f.owner in
      let new_owner = f.new_owner in
      (
        record {
          error = ground (arith, error, owner, new_owner);
          owner = ground (arith, error, owner, new_owner);
          new_owner = ground (arith, error, owner, new_owner);
          silent = λ k. let e = f.silent k in ground (arith, error, owner, new_owner, e);
        },
        λ k. ground (arith, error, owner, new_owner),
      )

  module _ (d : DataLogger Data) (valid : d.config_valid ≡ true) where
    abbrev claim : ℕ → System Data → System Data
    claim i s = think_step (configure_step ResponseCode.ok d d i s)

    claim_lem :
        (i : ℕ) (s : System Data)
        → IsUnclaimed s
        → (s.loops i).main2loop_msg ≡ none
        → IsUnclaimed (claim i s)
          × (((claim i s).loops i).main2loop_msg ≡ some Main2LoopMessage.take_datalogger_ownership)
          × ((j : ℕ) → (i == j) ≡ false → (claim i s).loops j ≡ s.loops j)
          × ((claim i s).shared.owner ≡ (s.shared).owner)
    unfolding finish_configure process_datalogging_logic logic_without_owner logic_of_new_owner
    claim_lem i s f empty =
        let error = f.error in
        let owner = f.owner in
        (
          record {
            error = ground (arith, valid, error, owner, empty);
            owner = ground (arith, valid, error, owner, empty);
            new_owner = ground (arith, valid, error, owner, empty);
            silent = λ k. let e = f.silent k in ground (arith, valid, error, owner, empty, e);
          },
          ground (arith, valid, error, owner, empty),
          λ j other. ground (arith, valid, error, owner, empty, other),
          ground (arith, valid, error, owner, empty),
        )

    -- What a call of `process` that accepts a request to configure for the loop `i` does to the system: the rounds
    -- and the logic, the request, and both again.
    abbrev pub accepting_call : ℕ → ℕ → System Data → System Data
    accepting_call count i s =
        process_loops_and_logic
          (configure_step ResponseCode.ok d d i (process_loops_and_logic s count)) count

    pub record IsAsked (i : ℕ) (before after : System Data) : Type 0 where
      pub free : IsUnclaimed after
      pub asked : (after.loops i).main2loop_msg ≡ some Main2LoopMessage.take_datalogger_ownership
      pub others : (j : ℕ) → (i == j) ≡ false → after.loops j ≡ before.loops j
      pub owner : (after.shared).owner ≡ (before.shared).owner

    pub call_lem :
        (count i : ℕ) (s : System Data)
        → IsUnclaimed s
        → (s.loops i).main2loop_msg ≡ none
        → IsAsked i s (accepting_call count i s)
    call_lem count i s f empty =
        let (f', same) = think_lem s f in
        let s1 = think_step s in
        let c = claim_lem i s1 f' (ap (λ l. l.main2loop_msg) (same i) ∙ empty) in
        let path =
          ap (λ x. process_loops_and_logic (configure_step ResponseCode.ok d d i x) count)
            (process_loops_and_logic-silent s count f.silent)
          ∙ process_loops_and_logic-silent (configure_step ResponseCode.ok d d i s1) count
              f'.silent in
        subst (IsAsked i s) (sym path) (record {
          free = c.0;
          asked = c.1;
          others = λ j other. c.2 j other ∙ same j;
          owner = c.3;
        })
