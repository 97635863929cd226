-- ===== src/Main/Ownership/Race.antt =====
-- Two requests to configure the datalogger that are accepted before the loop that is asked first has run.
use scrutiny_embedded.Base.{
  ℕ, Bool, true, false, ◌==◌, ◌≡◌, ◌<◌, ◌∙◌, inl, inr, ap, arith, Option, none, Bool-cases, subst,
  List,
}
use scrutiny_embedded.Datalogging.Configuration.{MainHandler}
use scrutiny_embedded.Datalogging.DataLogger.{DataLogger}
use scrutiny_embedded.LoopHandler.{is_loop}
use scrutiny_embedded.Main.Ownership.{DataloggingError, process_loops, process_datalogging_logic}
use scrutiny_embedded.Main.Ownership.Steps.{System}
use scrutiny_embedded.Main.Ownership.Safety.{IsInitial}
use scrutiny_embedded.Main.Process.{process_loops_and_logic}
use scrutiny_embedded.Main.Ownership.Hearing.{SayTaken, Taken, after_two}
use scrutiny_embedded.Main.Ownership.Calls.{IsUnclaimed, call_lem, accepting_call}
use scrutiny_embedded.Main.Ownership.Racing.{
  Racing, IsTold, run_all, Among, run_all-Among, run_all-Racing,
}

module _ {Data : Type 0} (main_handler : MainHandler) (evaluate : Data → Option (Bool × Data)) where
  hears_both :
      (count i j : ℕ) (s : System Data)
      → (i == j) ≡ false
      → i < count
      → j < count
      → Racing i j s
      → Taken s.loops i
      → Taken s.loops j
      → ((process_loops_and_logic s count).main).error ≡ DataloggingError.unexpected_claim
  unfolding process_loops_and_logic process_loops process_datalogging_logic
  hears_both count i j s other bi bj racing ti tj =
      let say : SayTaken s.loops = λ k. elim (Bool-cases (i == k)) [
        | inl is_i ↦ inr (subst (λ x. Taken s.loops x) (ground (arith, is_i)) ti)
        | inr apart_i ↦ elim (Bool-cases (j == k)) [
          | inl is_j ↦ inr (subst (λ x. Taken s.loops x) (ground (arith, is_j)) tj)
          | inr apart_j ↦ inl (racing.others k apart_i apart_j).1
        ]
      ] in
      let e =
        after_two count 0 i j s.loops s.main s.shared say other ti tj
          (omega arith, omega (arith, bi)) (omega arith, omega (arith, bj)) in
      ground (arith, e)

  -- Nobody owns the datalogger, and no loop has been asked to. Two calls of `process` follow one another with no
  -- call of a loop between them; the first accepts a request to configure for one loop, the second for
  -- another. Then loops are called, any of them in any order and however often, these two among them.
  -- The next rounds and logic of `process` end in the error of an unexpected claim.
  pub race_lem :
      (d : DataLogger Data) (valid : d.config_valid ≡ true) (count i j : ℕ) (s : System Data)
      (rs : List (ℕ × ℕ))
      → (i == j) ≡ false
      → i < count
      → j < count
      → IsInitial s
      → (s.main).new_owner ≡ none
      → Among main_handler evaluate i rs
      → Among main_handler evaluate j rs
      → (let asked = accepting_call d valid count j (accepting_call d valid count i s) in
          ((process_loops_and_logic (run_all main_handler evaluate rs asked) count).main).error
          ≡ DataloggingError.unexpected_claim)
  race_lem d valid count i j s rs other bi bj initial new_owner among_i among_j =
      let swapped : (j == i) ≡ false = ground (arith, other) in
      let free : IsUnclaimed s = record {
        error = initial.error;
        owner = initial.main_owner;
        new_owner = new_owner;
        silent = initial.outs;
      } in
      let s1 = accepting_call d valid count i s in
      let s2 = accepting_call d valid count j s1 in
      let a = call_lem d valid count i s free (initial.ins i) in
      let b =
        call_lem d valid count j s1 a.free
          (ap (λ l. l.main2loop_msg) (a.others j other) ∙ initial.ins j) in
      let own = b.owner ∙ a.owner ∙ initial.owner in
      let first : IsTold (s2.loops i) =
        inl (ap (λ l. l.main2loop_msg) (b.others i swapped) ∙ a.asked, b.free.silent i) in
      let second : IsTold (s2.loops j) = inl (b.asked, b.free.silent j) in
      let racing : Racing i j s2 = record {
        first = first;
        second = second;
        others = λ k not_i not_j. (
          ap (λ l. l.main2loop_msg) (b.others k not_j ∙ a.others k not_i) ∙ initial.ins k,
          b.free.silent k,
        );
        owner = λ k not_i not_j. ap (is_loop k) own;
      } in
      hears_both count i j (run_all main_handler evaluate rs s2) other bi bj
        (run_all-Racing main_handler evaluate i j rs s2 racing)
        (run_all-Among main_handler evaluate i rs s2 among_i first)
        (run_all-Among main_handler evaluate j rs s2 among_j second)
