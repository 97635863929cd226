-- ===== src/Main/Ownership/Phases.antt =====
-- The phases of the ownership of the datalogger, and how the calls of a loop move between them.
use scrutiny_embedded.Base.{
  ℕ, Bool, true, false, not, ◌&&◌, ◌==◌, ◌≡◌, inl, inr, refl, arith, Option, none, some, Bool-cases,
}
use scrutiny_embedded.LoopHandler.{Main2LoopMessage, Loop2MainMessage, LoopHandler}
use scrutiny_embedded.LoopHandler.Messages.{is_quiet_in, is_quiet_out, IsQuiet}
use scrutiny_embedded.Main.Ownership.{Datalogging, DataloggingError, Loops, update}
use scrutiny_embedded.Main.Ownership.Steps.{System}

abbrev pub is_release : Option Main2LoopMessage → Bool
is_release (some Main2LoopMessage.release_datalogger_ownership) = true
is_release _ = false

abbrev pub is_take : Option Main2LoopMessage → Bool
is_take (some Main2LoopMessage.take_datalogger_ownership) = true
is_take _ = false

-- What the main handler keeps while nobody owns the datalogger in its eyes.
pub record IsFree (m : Datalogging) : Type 0 where
  pub error : m.error ≡ DataloggingError.no_error
  pub owner : m.owner ≡ none
  pub request : m.request_ownership_release ≡ false
  pub pending : m.pending_ownership_release ≡ false

pub record IsOwned (i : ℕ) (m : Datalogging) : Type 0 where
  pub error : m.error ≡ DataloggingError.no_error
  pub owner : m.owner ≡ some i
  pub new_owner : m.new_owner ≡ none

-- The loops but one say and hear nothing about ownership.
unfoldable pub OthersQuiet : ℕ → Loops → Type 0
OthersQuiet i loops = (j : ℕ) → (i == j) ≡ false → IsQuiet (loops j)

-- `free`: nobody owns the datalogger; `offered`: a loop has been asked; `taken`: it owns the datalogger and
-- has told so; `owned`: the main handler has heard it; `released`: the loop has let go and told so.
pub data Phase {Data : Type 0} (s : System Data) : Type 0 where
  free : IsFree s.main → (s.shared).owner ≡ none → ((j : ℕ) → IsQuiet (s.loops j)) → Phase s
  offered :
      (i : ℕ)
      → IsFree s.main
      → (s.main).new_owner ≡ none
      → (s.shared).owner ≡ none
      → (s.loops i).main2loop_msg ≡ some Main2LoopMessage.take_datalogger_ownership
      → is_quiet_out (s.loops i).loop2main_msg ≡ true
      → OthersQuiet i s.loops
      → Phase s
  taken :
      (i : ℕ)
      → IsFree s.main
      → (s.main).new_owner ≡ none
      → (s.shared).owner ≡ some i
      → is_quiet_in (s.loops i).main2loop_msg ≡ true
      → (s.loops i).loop2main_msg ≡ some Loop2MainMessage.datalogger_ownership_taken
      → OthersQuiet i s.loops
      → Phase s
  owned :
      (i : ℕ)
      → IsOwned i s.main
      → (s.shared).owner ≡ some i
      → is_quiet_out (s.loops i).loop2main_msg ≡ true
      → is_take (s.loops i).main2loop_msg ≡ false
      → (is_release (s.loops i).main2loop_msg ≡ (s.main).pending_ownership_release)
      → (not ((s.main).request_ownership_release && (s.main).pending_ownership_release) ≡ true)
      → OthersQuiet i s.loops
      → Phase s
  released :
      (i : ℕ)
      → IsOwned i s.main
      → (s.shared).owner ≡ none
      → (s.loops i).loop2main_msg ≡ some Loop2MainMessage.datalogger_ownership_released
      → is_quiet_in (s.loops i).main2loop_msg ≡ true
      → (s.main).pending_ownership_release ≡ true
      → (s.main).request_ownership_release ≡ false
      → OthersQuiet i s.loops
      → Phase s

pub IsQuiet-update :
    (loops : Loops) (k j : ℕ) (l : LoopHandler)
    → IsQuiet l
    → ((k == j) ≡ false → IsQuiet (loops j))
    → IsQuiet (update loops k l j)
IsQuiet-update loops k j l q others = elim (Bool-cases (k == j)) [
  | inl same ↦
      let a = q.in_mailbox in
      let b = q.out_mailbox in
      record { in_mailbox = ground (arith, same, a); out_mailbox = ground (arith, same, b) }
  | inr other ↦
      let r = others other in
      let a = r.in_mailbox in
      let b = r.out_mailbox in
      record { in_mailbox = ground (arith, other, a); out_mailbox = ground (arith, other, b) }
]

-- The loop of the phase does something, the others stay.
pub OthersQuiet-update_self :
    (i : ℕ) (loops : Loops) (l : LoopHandler)
    → OthersQuiet i loops
    → OthersQuiet i (update loops i l)
unfolding OthersQuiet
OthersQuiet-update_self i loops l q j other =
    let r = q j other in
    let a = r.in_mailbox in
    let b = r.out_mailbox in
    record { in_mailbox = ground (arith, other, a); out_mailbox = ground (arith, other, b) }

-- Another loop does something quiet.
pub OthersQuiet-update_other :
    (i k : ℕ) (loops : Loops) (l : LoopHandler)
    → IsQuiet l
    → OthersQuiet i loops
    → OthersQuiet i (update loops k l)
unfolding OthersQuiet
OthersQuiet-update_other i k loops l quiet q j other =
    IsQuiet-update loops k j l quiet (λ _. q j other)

pub update-other :
    (loops : Loops) (k i : ℕ) (l : LoopHandler) → (k == i) ≡ false → update loops k l i ≡ loops i
update-other loops k i l other = ground (arith, other)

pub update_self : (loops : Loops) (i : ℕ) (l : LoopHandler) → update loops i l i ≡ l
update_self loops i l = ground arith

pub eq-swap : (k i : ℕ) → (k == i) ≡ false → (i == k) ≡ false
eq-swap k i e = ground (arith, e)

pub is_release-eq :
    (m : Option Main2LoopMessage)
    → is_release m ≡ true
    → m ≡ some Main2LoopMessage.release_datalogger_ownership
is_release-eq none e = cc
is_release-eq (some Main2LoopMessage.release_datalogger_ownership) e = refl
is_release-eq (some Main2LoopMessage.take_datalogger_ownership) e = cc
is_release-eq (some Main2LoopMessage.datalogger_arm_trigger) e = cc
is_release-eq (some Main2LoopMessage.datalogger_disarm_trigger) e = cc

-- A message that is neither of the two is not about ownership.
pub is_quiet_in-of :
    (m : Option Main2LoopMessage) → is_release m ≡ false → is_take m ≡ false → is_quiet_in m ≡ true
is_quiet_in-of none r t = refl
is_quiet_in-of (some Main2LoopMessage.release_datalogger_ownership) r t = cc
is_quiet_in-of (some Main2LoopMessage.take_datalogger_ownership) r t = cc
is_quiet_in-of (some Main2LoopMessage.datalogger_arm_trigger) r t = refl
is_quiet_in-of (some Main2LoopMessage.datalogger_disarm_trigger) r t = refl

pub is_quiet_in-not :
    (m : Option Main2LoopMessage)
    → is_quiet_in m ≡ true
    → (is_release m ≡ false) × (is_take m ≡ false)
is_quiet_in-not none q = (refl, refl)
is_quiet_in-not (some Main2LoopMessage.release_datalogger_ownership) q = (cc, cc)
is_quiet_in-not (some Main2LoopMessage.take_datalogger_ownership) q = (cc, cc)
is_quiet_in-not (some Main2LoopMessage.datalogger_arm_trigger) q = (refl, refl)
is_quiet_in-not (some Main2LoopMessage.datalogger_disarm_trigger) q = (refl, refl)
