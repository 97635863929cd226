-- ===== src/Datalogging/DataLogger/Acquisition.antt =====
-- The steps of the state machine, and the hold time of a trigger.
use scrutiny_embedded.Base.{
  ℕ, Bool, true, false, List, [], ◌∷◌, ◌+◌, ◌^◌, ◌≤◌, ◌<◌, ◌≡◌, ◌⊎◌, sym, ap, subst, ap₂, ◌∙◌,
  arith, leb, inl, inr, Bool-cases, Option-cases, Option, some,
}
use scrutiny_embedded.Timebase.{Timebase, step, get_timestamp, elapsed_since, has_expired}
use scrutiny_embedded.Timebase.Elapsed.{total, step-elapsed, step-word}
use scrutiny_embedded.Datalogging.Configuration.{MainHandler, max_operands}
use scrutiny_embedded.Datalogging.DataLogger.{DataLogger, State, is_armed, is_triggered, is_running}
use scrutiny_embedded.Datalogging.DataLogger.Configure.{condition_operand_count}
use scrutiny_embedded.Datalogging.DataLogger.Process.{
  hold_condition, check_trigger, process_acquisition, process_armed, process_triggered, process,
}

module _ {ℓ} {Data : Type ℓ} where
  -- The steps that one call of `process` can make, and what each one tells.
  pub data Moves (d : DataLogger Data) : State → Type ℓ where
    rests : is_running d.state ≡ false → Moves d d.state
    fails : is_running d.state ≡ true → d.encoder.error ≡ true → Moves d State.error
    stays : is_running d.state ≡ true → d.encoder.error ≡ false → Moves d d.state
    fires : is_armed d.state ≡ true → d.encoder.error ≡ false → Moves d State.triggered
    fires_and_completes :
        is_armed d.state ≡ true → d.encoder.error ≡ false → Moves d State.acquisition_completed
    completes :
        is_triggered d.state ≡ true → d.encoder.error ≡ false → Moves d State.acquisition_completed

  process_acquisition_state :
      (m : MainHandler) (t : Timebase) (d : DataLogger Data)
      → (process_acquisition m t d).state ≡ d.state
  unfolding process_acquisition
  process_acquisition_state m t d = ground arith

  check_trigger_state :
      (f : Data → Option (Bool × Data)) (t : Timebase) (d : DataLogger Data)
      → (check_trigger f t d).0.state ≡ d.state
  unfolding check_trigger hold_condition
  check_trigger_state f t d = elim (Option-cases (f d.condition_data)) [
    | inl e ↦ rw (e) (ground arith)
    | inr r ↦ rw (r.1) (ground arith)
  ]

  armed_outcome :
      (f : Data → Option (Bool × Data)) (t : Timebase) (d : DataLogger Data)
      → ((process_armed f t d).0.state ≡ d.state)
        ⊎ ((is_armed d.state ≡ true) × ((process_armed f t d).0.state ≡ State.triggered))
  unfolding process_armed
  armed_outcome f t d = ground (arith, check_trigger_state f t d)

  triggered_outcome :
      (t : Timebase) (d : DataLogger Data)
      → ((process_triggered t d).state ≡ d.state)
        ⊎ ((is_triggered d.state ≡ true)
            × ((process_triggered t d).state ≡ State.acquisition_completed))
  unfolding process_triggered
  triggered_outcome t d = ground arith

  -- What a call does while the logger runs and its encoder has no error.
  process-running :
      (m : MainHandler) (f : Data → Option (Bool × Data)) (t : Timebase) (d : DataLogger Data)
      → is_running d.state ≡ true
      → d.encoder.error ≡ false
      → (process m f t d).0 ≡ process_triggered t (process_armed f t (process_acquisition m t d)).0
  unfolding process
  process-running m f t d run ok = ground (arith, run, ok)

  process-off :
      (m : MainHandler) (f : Data → Option (Bool × Data)) (t : Timebase) (d : DataLogger Data)
      → is_running d.state ≡ false
      → (process m f t d).0.state ≡ d.state
  unfolding process
  process-off m f t d off = ground (arith, off)

  process-error :
      (m : MainHandler) (f : Data → Option (Bool × Data)) (t : Timebase) (d : DataLogger Data)
      → is_running d.state ≡ true
      → d.encoder.error ≡ true
      → (process m f t d).0.state ≡ State.error
  unfolding process
  process-error m f t d run bad = ground (arith, run, bad)

  running-Moves :
      (m : MainHandler) (f : Data → Option (Bool × Data)) (t : Timebase) (d : DataLogger Data)
      → is_running d.state ≡ true
      → d.encoder.error ≡ false
      → Moves d (process_triggered t (process_armed f t (process_acquisition m t d)).0).state
  running-Moves m f t d run ok =
      let acquired = process_acquisition m t d in
      let fired = (process_armed f t acquired).0 in
      let same = process_acquisition_state m t d in
      elim (triggered_outcome t fired) [
        | inl b ↦ elim (armed_outcome f t acquired) [
          | inl a ↦ subst (Moves d) (sym (b ∙ a ∙ same)) (Moves.stays run ok)
          | inr a ↦ subst (Moves d) (sym (b ∙ a.1)) (Moves.fires (ap is_armed (sym same) ∙ a.0) ok)
        ]
        | inr b ↦ elim (armed_outcome f t acquired) [
          | inl a ↦
              subst (Moves d) (sym b.1)
                (Moves.completes (ap is_triggered (sym (a ∙ same)) ∙ b.0) ok)
          | inr a ↦
              subst (Moves d) (sym b.1)
                (Moves.fires_and_completes (ap is_armed (sym same) ∙ a.0) ok)
        ]
      ]

  -- One call of `process`, whatever the condition gives: a logger that is idle, in error or done stays
  -- as it is; one that runs goes to error when its encoder has one; else it stays, or fires if it was
  -- armed, which can complete the acquisition at once, or completes it if it was triggered. It never
  -- goes any other way.
  pub process-Moves :
      (m : MainHandler) (f : Data → Option (Bool × Data)) (t : Timebase) (d : DataLogger Data)
      → Moves d (process m f t d).0.state
  process-Moves m f t d = elim (Bool-cases (is_running d.state)) [
    | inr off ↦ subst (Moves d) (sym (process-off m f t d off)) (Moves.rests off)
    | inl run ↦ elim (Bool-cases d.encoder.error) [
      | inl bad ↦ subst (Moves d) (sym (process-error m f t d run bad)) (Moves.fails run bad)
      | inr ok ↦
          subst (λ g. Moves d g.state) (sym (process-running m f t d run ok))
            (running-Moves m f t d run ok)
    ]
  ]

  -- A condition that is true whenever it is evaluated.
  pub checks : (Data → Data) → Timebase → DataLogger Data → List ℕ → DataLogger Data × Bool
  checks keep t d [] = check_trigger (λ x. some (true, keep x)) t d
  checks keep t d (s ∷ ss) =
      checks keep (step t s) (check_trigger (λ x. some (true, keep x)) t d).0 ss

  -- The logger waits for its condition, which has been true since `rising_edge_timestamp`.
  pub record IsHolding (t : Timebase) (d : DataLogger Data) : Type ℓ where
    pub armed : is_armed d.state ≡ true
    pub automatic : d.manual_trigger ≡ false
    pub operands : condition_operand_count d.active_condition ≤ max_operands
    pub since : d.previous_val ≡ true
    pub stamp : d.rising_edge_timestamp < 2 ^ 32
    pub clock : t.time_100ns < 2 ^ 32

  check_trigger-IsHolding :
      (keep : Data → Data) (t : Timebase) (d : DataLogger Data)
      → IsHolding t d
      → ((check_trigger (λ x. some (true, keep x)) t d).1
          ≡ leb d.config.trigger.hold_time_100ns (elapsed_since t d.rising_edge_timestamp))
        × IsHolding t (check_trigger (λ x. some (true, keep x)) t d).0
        × ((check_trigger (λ x. some (true, keep x)) t d).0.rising_edge_timestamp
            ≡ d.rising_edge_timestamp)
        × ((check_trigger (λ x. some (true, keep x)) t d).0.config ≡ d.config)
  unfolding check_trigger hold_condition has_expired
  check_trigger-IsHolding keep t d h = ground (arith, h)

  still : {t : Timebase} {d : DataLogger Data} (s : ℕ) → IsHolding t d → IsHolding (step t s) d
  still {t = t} s h = record {
    armed = h.armed;
    automatic = h.automatic;
    operands = h.operands;
    since = h.since;
    stamp = h.stamp;
    clock = step-word t s;
  }

  checks-IsHolding :
      (keep : Data → Data) (t : Timebase) (d : DataLogger Data) (ds : List ℕ)
      → IsHolding t d
      → elapsed_since t d.rising_edge_timestamp + total ds < 2 ^ 32
      → (checks keep t d ds).1
        ≡ leb d.config.trigger.hold_time_100ns (elapsed_since t d.rising_edge_timestamp + total ds)
  unfolding checks total
  checks-IsHolding keep t d [] h k =
      (check_trigger-IsHolding keep t d h).0
      ∙ ap (leb d.config.trigger.hold_time_100ns) (omega arith)
  checks-IsHolding keep t d (s ∷ ss) h k =
      let one = check_trigger-IsHolding keep t d h in
      let d' = (check_trigger (λ x. some (true, keep x)) t d).0 in
      let later = step-elapsed t d.rising_edge_timestamp s h.clock h.stamp (omega (arith, k)) in
      let now : elapsed_since (step t s) d'.rising_edge_timestamp
          ≡ elapsed_since t d.rising_edge_timestamp + s =
        ap (elapsed_since (step t s)) one.2 ∙ later in
      checks-IsHolding keep (step t s) d' ss (still s one.1) (omega (arith, now, k))
      ∙ ap₂ leb (ap (λ c. c.trigger.hold_time_100ns) one.3) (omega (arith, now))

  -- The logger is armed and its condition was false at the last evaluation.
  pub record IsWaiting (t : Timebase) (d : DataLogger Data) : Type ℓ where
    pub armed : is_armed d.state ≡ true
    pub automatic : d.manual_trigger ≡ false
    pub operands : condition_operand_count d.active_condition ≤ max_operands
    pub before : d.previous_val ≡ false
    pub clock : t.time_100ns < 2 ^ 32

  check_trigger-IsWaiting :
      (keep : Data → Data) (t : Timebase) (d : DataLogger Data)
      → IsWaiting t d
      → ((check_trigger (λ x. some (true, keep x)) t d).1 ≡ leb d.config.trigger.hold_time_100ns 0)
        × IsHolding t (check_trigger (λ x. some (true, keep x)) t d).0
        × (elapsed_since t (check_trigger (λ x. some (true, keep x)) t d).0.rising_edge_timestamp
            ≡ 0)
        × ((check_trigger (λ x. some (true, keep x)) t d).0.config ≡ d.config)
  unfolding check_trigger hold_condition has_expired elapsed_since get_timestamp
  check_trigger-IsWaiting keep t d h = ground (arith, h)

  -- An armed logger whose condition was false, without a manual trigger, on a 32 bit clock: if the
  -- condition is true at each of a sequence of evaluations, between which the clock steps by less than
  -- 2 ^ 32 in all, then the last evaluation fires the trigger exactly when the steps add up to the hold
  -- time, wherever the clock wraps.
  pub checks-IsWaiting :
      (keep : Data → Data) (t : Timebase) (d : DataLogger Data) (ds : List ℕ)
      → IsWaiting t d
      → total ds < 2 ^ 32
      → (checks keep t d ds).1 ≡ leb d.config.trigger.hold_time_100ns (total ds)
  unfolding checks total
  checks-IsWaiting keep t d [] w k = (check_trigger-IsWaiting keep t d w).0
  checks-IsWaiting keep t d (s ∷ ss) w k =
      let one = check_trigger-IsWaiting keep t d w in
      let d' = (check_trigger (λ x. some (true, keep x)) t d).0 in
      let now =
        step-elapsed t d'.rising_edge_timestamp s w.clock one.1.stamp (omega (arith, one.2, k)) in
      checks-IsHolding keep (step t s) d' ss (still s one.1) (omega (arith, now, one.2, k))
      ∙ ap₂ leb (ap (λ c. c.trigger.hold_time_100ns) one.3) (omega (arith, now, one.2))
