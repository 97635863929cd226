-- ===== src/Main/Ownership/Racing.antt =====
-- Calls of the loops, in any order, when two of them have been asked to take the ownership.
use scrutiny_embedded.Base.{
  ℕ, Bool, true, false, ◌==◌, ◌≡◌, ◌⊎◌, ◌∙◌, inl, inr, sym, ap, arith, Option, none, some,
  Bool-cases, subst, List, [], ◌∷◌,
}
use scrutiny_embedded.Datalogging.Configuration.{MainHandler}
use scrutiny_embedded.LoopHandler.{
  Main2LoopMessage, Loop2MainMessage, LoopHandler, has_content, is_loop,
}
use scrutiny_embedded.LoopHandler.Messages.{
  process_common-take, process_common-full, process_common-idle,
}
use scrutiny_embedded.Main.Ownership.Steps.{System, run_loop_step}
use scrutiny_embedded.Main.Ownership.Hearing.{Taken}

-- A loop that has been asked to take the ownership, or has taken it; and one that has nothing to do with it.
abbrev pub IsTold : LoopHandler → Type 0
IsTold l =
    (l.main2loop_msg ≡ some Main2LoopMessage.take_datalogger_ownership) × (l.loop2main_msg ≡ none)
    ⊎ (l.loop2main_msg ≡ some Loop2MainMessage.datalogger_ownership_taken)

abbrev pub IsIdle : LoopHandler → Type 0
IsIdle l = (l.main2loop_msg ≡ none) × (l.loop2main_msg ≡ none)

pub record Racing {Data : Type 0} (i j : ℕ) (s : System Data) : Type 0 where
  pub first : IsTold (s.loops i)
  pub second : IsTold (s.loops j)
  pub others : (k : ℕ) → (i == k) ≡ false → (j == k) ≡ false → IsIdle (s.loops k)
  pub owner : (k : ℕ) → (i == k) ≡ false → (j == k) ≡ false → is_loop k (s.shared).owner ≡ false

module _ {Data : Type 0} (main_handler : MainHandler) (evaluate : Data → Option (Bool × Data)) where
  abbrev run : ℕ × ℕ → System Data → System Data
  run r s = run_loop_step main_handler evaluate r.0 r.1 s

  -- Calls of loops, each with its time step.
  unfoldable pub run_all : List (ℕ × ℕ) → System Data → System Data
  run_all [] s = s
  run_all (r ∷ rs) s = run_all rs (run_loop_step main_handler evaluate r.0 r.1 s)

  run_told :
      (k dt : ℕ) (s : System Data)
      → IsTold (s.loops k)
      → Taken (run (k, dt) s).loops k
        × (((run (k, dt) s).shared.owner ≡ (s.shared).owner)
            ⊎ ((run (k, dt) s).shared.owner ≡ some k))
  run_told k dt s (inl (take, empty)) =
      let moved =
        process_common-take main_handler evaluate k dt (s.loops k) s.shared take
          (ap has_content empty) in
      let out = moved.1 in (ground (arith, out), inr moved.2)
  run_told k dt s (inr taken) =
      let moved =
        process_common-full main_handler evaluate k dt (s.loops k) s.shared
          (ap has_content taken) in
      let out = moved.1 in (ground (arith, out, taken), inl moved.2)

  run-IsIdle :
      (k dt : ℕ) (s : System Data)
      → is_loop k (s.shared).owner ≡ false
      → IsIdle (s.loops k)
      → IsIdle ((run (k, dt) s).loops k) × ((run (k, dt) s).shared.owner ≡ (s.shared).owner)
  run-IsIdle k dt s other idle =
      let moved =
        process_common-idle main_handler evaluate k dt (s.loops k) s.shared other idle.0 idle.1 in
      let a = moved.0 in let b = moved.1 in ((ground (arith, a), ground (arith, b)), moved.2)

  run_same : (k l dt : ℕ) (s : System Data) → (k == l) ≡ false → (run (k, dt) s).loops l ≡ s.loops l
  run_same k l dt s other = ground (arith, other)

  -- A loop that has told keeps its message, and the race goes on.
  run-Taken : (k l dt : ℕ) (s : System Data) → Taken s.loops l → Taken (run (k, dt) s).loops l
  run-Taken k l dt s taken = elim (Bool-cases (k == l)) [
    | inr other ↦ ap (λ x. x.loop2main_msg) (run_same k l dt s other) ∙ taken
    | inl same ↦
        let e : l ≡ k = ground (arith, same) in
        subst (λ x. Taken (run (k, dt) s).loops x) (sym e)
          (run_told k dt s (inr (subst (λ x. Taken s.loops x) e taken))).0
  ]

  told_stays :
      (k l dt : ℕ) (s : System Data) → IsTold (s.loops l) → IsTold ((run (k, dt) s).loops l)
  told_stays k l dt s told = elim (Bool-cases (k == l)) [
    | inr other ↦ subst IsTold (sym (run_same k l dt s other)) told
    | inl same ↦
        let e : l ≡ k = ground (arith, same) in
        subst (λ x. IsTold ((run (k, dt) s).loops x)) (sym e)
          (inr (run_told k dt s (subst (λ x. IsTold (s.loops x)) e told)).0)
  ]

  -- A loop outside the race does not become the owner by the call of one that is in it.
  owner_told :
      (i j k dt : ℕ) (s : System Data)
      → Racing i j s
      → IsTold (s.loops k)
      → (l : ℕ) → (k == l) ≡ false
      → (i == l) ≡ false
      → (j == l) ≡ false
      → is_loop l (run (k, dt) s).shared.owner ≡ false
  owner_told i j k dt s racing told l not_k not_i not_j = elim (run_told k dt s told).1 [
    | inl kept ↦ ap (is_loop l) kept ∙ racing.owner l not_i not_j
    | inr taken ↦ ap (is_loop l) taken ∙ not_k
  ]

  run-Racing : (i j k dt : ℕ) (s : System Data) → Racing i j s → Racing i j (run (k, dt) s)
  run-Racing i j k dt s racing = record {
    first = told_stays k i dt s racing.first;
    second = told_stays k j dt s racing.second;
    others = λ l not_i not_j. elim (Bool-cases (k == l)) [
      | inr other ↦ subst IsIdle (sym (run_same k l dt s other)) (racing.others l not_i not_j)
      | inl same ↦
          let e : l ≡ k = ground (arith, same) in
          subst (λ x. IsIdle ((run (x, dt) s).loops l)) e
            (run-IsIdle l dt s (racing.owner l not_i not_j) (racing.others l not_i not_j)).0
    ];
    owner = λ l not_i not_j. elim (Bool-cases (i == k)) [
      | inl is_i ↦
          let e : i ≡ k = ground (arith, is_i) in
          owner_told i j k dt s racing (subst (λ x. IsTold (s.loops x)) e racing.first) l
            (subst (λ x. (x == l) ≡ false) e not_i) not_i not_j
      | inr apart_i ↦ elim (Bool-cases (j == k)) [
        | inl is_j ↦
            let e : j ≡ k = ground (arith, is_j) in
            owner_told i j k dt s racing (subst (λ x. IsTold (s.loops x)) e racing.second) l
              (subst (λ x. (x == l) ≡ false) e not_j) not_i not_j
        | inr apart_j ↦
            ap (is_loop l)
              (run-IsIdle k dt s (racing.owner k apart_i apart_j)
                (racing.others k apart_i apart_j)).1
            ∙ racing.owner l not_i not_j
      ]
    ];
  }

  -- The loop is called.
  abbrev pub Among : ℕ → List (ℕ × ℕ) → Type 0
  Among k [] = true ≡ false
  Among k (r ∷ rs) = (r.0 ≡ k) ⊎ Among k rs

  run_all-Taken :
      (l : ℕ) (rs : List (ℕ × ℕ)) (s : System Data) → Taken s.loops l → Taken (run_all rs s).loops l
  unfolding run_all
  run_all-Taken l [] s taken = taken
  run_all-Taken l (r ∷ rs) s taken = run_all-Taken l rs (run r s) (run-Taken r.0 l r.1 s taken)

  pub run_all-Among :
      (l : ℕ) (rs : List (ℕ × ℕ)) (s : System Data)
      → Among l rs
      → IsTold (s.loops l)
      → Taken (run_all rs s).loops l
  unfolding run_all
  run_all-Among l [] s among told = absurd (ground (arith, among))
  run_all-Among l (r ∷ rs) s (inl e) told = run_all-Taken l rs (run r s) (
      subst (λ x. Taken (run r s).loops x) e
        (run_told r.0 r.1 s (subst (λ x. IsTold (s.loops x)) (sym e) told)).0)
  run_all-Among l (r ∷ rs) s (inr among) told =
      run_all-Among l rs (run r s) among (told_stays r.0 l r.1 s told)

  pub run_all-Racing :
      (i j : ℕ) (rs : List (ℕ × ℕ)) (s : System Data) → Racing i j s → Racing i j (run_all rs s)
  unfolding run_all
  run_all-Racing i j [] s racing = racing
  run_all-Racing i j (r ∷ rs) s racing =
      run_all-Racing i j rs (run r s) (run-Racing i j r.0 r.1 s racing)
