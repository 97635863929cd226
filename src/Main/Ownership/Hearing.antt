-- ===== src/Main/Ownership/Hearing.antt =====
-- The rounds of `process_loops` over loops that have taken the ownership, or have said nothing.
use scrutiny_embedded.Base.{
  ℕ, zero, suc, false, ◌==◌, ◌≡◌, ◌≢◌, ◌⊎◌, ◌+◌, ◌≤◌, ◌<◌, ◌∙◌, inl, inr, refl, sym, ap, arith,
  none, some, Bool-cases, subst,
}
use scrutiny_embedded.LoopHandler.{Loop2MainMessage, Shared}
use scrutiny_embedded.Main.Ownership.{
  Datalogging, DataloggingError, Loops, process_loop, process_loops_from,
  process_datalogging_loop_msg,
}

-- Each loop has said nothing, or that it has taken the ownership.
abbrev pub SayTaken : Loops → Type 0
SayTaken loops =
    (k : ℕ)
    → ((loops k).loop2main_msg ≡ none)
      ⊎ ((loops k).loop2main_msg ≡ some Loop2MainMessage.datalogger_ownership_taken)

abbrev pub Taken : Loops → ℕ → Type 0
Taken loops k = (loops k).loop2main_msg ≡ some Loop2MainMessage.datalogger_ownership_taken

module _ {Data : Type 0} where
  -- The rounds of `process_loops`, one by one.
  hear_none :
      (k : ℕ) (loops : Loops) (m : Datalogging) (s : Shared Data)
      → (loops k).loop2main_msg ≡ none
      → process_loop k loops m s ≡ (loops, m, s)
  unfolding process_loop
  hear_none k loops m s empty = ground (arith, empty)

  hear-Taken :
      (k : ℕ) (loops : Loops) (m : Datalogging) (s : Shared Data)
      → Taken loops k
      → (let r = process_loop k loops m s in
          (r.1.owner ≡ some k)
          × (m.owner ≢ none → r.1.error ≡ DataloggingError.unexpected_claim)
          × (m.error ≡ DataloggingError.unexpected_claim
              → r.1.error ≡ DataloggingError.unexpected_claim)
          × ((l : ℕ) → (k == l) ≡ false → r.0 l ≡ loops l)
          × ((r.0 k).loop2main_msg ≡ none))
  unfolding process_loop process_datalogging_loop_msg
  hear-Taken k loops m s taken = (
    ground (arith, taken),
    λ has. ground (arith, taken, has),
    λ e. ground (arith, taken, e),
    λ l other. ground (arith, taken, other),
    ground (arith, taken),
  )

  popped-SayTaken :
      (k : ℕ) (loops : Loops) (m : Datalogging) (s : Shared Data)
      → Taken loops k
      → SayTaken loops
      → SayTaken (process_loop k loops m s).0
  popped-SayTaken k loops m s taken say l =
      let h = hear-Taken k loops m s taken in
      elim (Bool-cases (k == l)) [
        | inl same ↦
            let e : k ≡ l = ground (arith, same) in
            inl (subst (λ i. ((process_loop k loops m s).0 i).loop2main_msg ≡ none) e h.4)
        | inr other ↦
            let e = ap (λ x. x.loop2main_msg) (h.3 l other) in
            elim (say l) [ inl n ↦ inl (e ∙ n) | inr t ↦ inr (e ∙ t) ]
      ]

  skip_none :
      (n k : ℕ) (loops : Loops) (m : Datalogging) (s : Shared Data)
      → (loops k).loop2main_msg ≡ none
      → process_loops_from (suc n) k loops m s ≡ process_loops_from n (k + 1) loops m s
  unfolding process_loops_from
  skip_none n k loops m s empty =
      ap (λ r. process_loops_from n (k + 1) r.0 r.1 r.2) (hear_none k loops m s empty)

  -- The error stays, through the `n` rounds from `k` on.
  after_error :
      (n k : ℕ) (loops : Loops) (m : Datalogging) (s : Shared Data)
      → SayTaken loops
      → m.error ≡ DataloggingError.unexpected_claim
      → (process_loops_from n k loops m s).1.error ≡ DataloggingError.unexpected_claim
  unfolding process_loops_from
  after_error zero k loops m s say e = e
  after_error (suc n) k loops m s say e = elim (say k) [
    | inl empty ↦
        ap (λ r. r.1.error) (skip_none n k loops m s empty) ∙ after_error n (k + 1) loops m s say e
    | inr taken ↦
        let r = process_loop k loops m s in
        after_error n (k + 1) r.0 r.1 r.2 (popped-SayTaken k loops m s taken say)
          ((hear-Taken k loops m s taken).2 e)
  ]

  -- With an owner, one more loop that has taken the ownership is an error.
  after_owner :
      (n k q : ℕ) (loops : Loops) (m : Datalogging) (s : Shared Data)
      → SayTaken loops
      → m.owner ≢ none
      → Taken loops q
      → k ≤ q
      → q < k + n
      → (process_loops_from n k loops m s).1.error ≡ DataloggingError.unexpected_claim
  unfolding process_loops_from
  after_owner zero k q loops m s say has at from below = absurd (omega arith)
  after_owner (suc n) k q loops m s say has at from below = elim (say k) [
    | inr taken ↦
        let r = process_loop k loops m s in
        after_error n (k + 1) r.0 r.1 r.2 (popped-SayTaken k loops m s taken say)
          ((hear-Taken k loops m s taken).1 has)
    | inl empty ↦
        let ahead : k ≢ q =
          λ e. absurd (ground (arith, empty, subst (λ i. Taken loops i) (sym e) at)) in
        ap (λ r. r.1.error) (skip_none n k loops m s empty)
        ∙ after_owner n (k + 1) q loops m s say has at (omega (arith, ahead)) (omega arith)
  ]

  -- Two loops that have taken it are an error.
  pub after_two :
      (n k i j : ℕ) (loops : Loops) (m : Datalogging) (s : Shared Data)
      → SayTaken loops
      → (i == j) ≡ false
      → Taken loops i
      → Taken loops j
      → (k ≤ i) × (i < k + n)
      → (k ≤ j) × (j < k + n)
      → (process_loops_from n k loops m s).1.error ≡ DataloggingError.unexpected_claim
  unfolding process_loops_from
  after_two zero k i j loops m s say other ti tj bi bj = absurd (omega (arith, bi.0, bi.1))
  after_two (suc n) k i j loops m s say other ti tj bi bj = elim (say k) [
    | inl empty ↦
        let not_i : k ≢ i =
          λ e. absurd (ground (arith, empty, subst (λ x. Taken loops x) (sym e) ti)) in
        let not_j : k ≢ j =
          λ e. absurd (ground (arith, empty, subst (λ x. Taken loops x) (sym e) tj)) in
        ap (λ r. r.1.error) (skip_none n k loops m s empty)
        ∙ after_two n (k + 1) i j loops m s say other ti tj
            (omega (arith, bi.0, not_i), omega (arith, bi.1))
            (omega (arith, bj.0, not_j), omega (arith, bj.1))
    | inr taken ↦
        let r = process_loop k loops m s in
        let h = hear-Taken k loops m s taken in
        let say' = popped-SayTaken k loops m s taken say in
        let has : r.1.owner ≢ none = λ e. absurd (ground (arith, h.0, e)) in
        elim (Bool-cases (k == i)) [
          | inl same ↦
              let not_j : (k == j) ≡ false = ground (arith, same, other) in
              after_owner n (k + 1) j r.0 r.1 r.2 say' has
                (ap (λ x. x.loop2main_msg) (h.3 j not_j) ∙ tj) (ground (arith, not_j, bj.0))
                (omega (arith, bj.1))
          | inr not_i ↦
              after_owner n (k + 1) i r.0 r.1 r.2 say' has
                (ap (λ x. x.loop2main_msg) (h.3 i not_i) ∙ ti) (ground (arith, not_i, bi.0))
                (omega (arith, bi.1))
        ]
  ]

  pub after_none :
      (n k : ℕ) (loops : Loops) (m : Datalogging) (s : Shared Data)
      → ((l : ℕ) → (loops l).loop2main_msg ≡ none)
      → process_loops_from n k loops m s ≡ (loops, m, s)
  unfolding process_loops_from
  after_none zero k loops m s empty = refl
  after_none (suc n) k loops m s empty =
      skip_none n k loops m s (empty k) ∙ after_none n (k + 1) loops m s empty
