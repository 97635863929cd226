-- ===== src/Main/Ownership/MainMoves.antt =====
-- What the main handler hears, thinks and is asked keeps the ownership in one of its phases.
use scrutiny_embedded.Base.{
  ℕ, true, false, ◌==◌, ◌≡◌, inl, inr, subst, arith, none, some, Bool-cases,
}
use scrutiny_embedded.LoopHandler.{Loop2MainMessage}
use scrutiny_embedded.LoopHandler.Messages.{is_quiet_in, is_quiet_out, IsQuiet}
use scrutiny_embedded.Main.Ownership.{process_loop, process_datalogging_loop_msg}
use scrutiny_embedded.Main.Ownership.Steps.{System, hear_step}
use scrutiny_embedded.Main.Ownership.Phases.{
  IsFree, IsOwned, OthersQuiet, Phase, eq-swap, is_quiet_in-not,
}
use scrutiny_embedded.Main.Ownership.Similar.{KeptOut, Similar, Similar-Phase}

module _ {Data : Type 0} (s : System Data) where
  hear-quiet : (k : ℕ) → is_quiet_out (s.loops k).loop2main_msg ≡ true → Similar s (hear_step k s)
  unfolding process_loop process_datalogging_loop_msg
  hear-quiet k quiet = record {
    owner = ground (arith, quiet);
    main = record {
      error = ground (arith, quiet);
      owner = ground (arith, quiet);
      new_owner = ground (arith, quiet);
      request = ground (arith, quiet);
      pending = ground (arith, quiet);
    };
    ins = λ j. inl (ground (arith, quiet));
    outs = λ j. elim (Bool-cases (k == j)) [
      | inl same ↦
          let here : k ≡ j = ground (arith, same) in
          subst (λ i. KeptOut (s.loops i).loop2main_msg ((hear_step k s).loops i).loop2main_msg)
            here (inr (quiet, ground (arith, quiet)))
      | inr other ↦ inl (ground (arith, quiet, other))
    ];
  }

  hear-taken :
      (i : ℕ)
      → IsFree s.main
      → (s.main).new_owner ≡ none
      → (s.shared).owner ≡ some i
      → is_quiet_in (s.loops i).main2loop_msg ≡ true
      → (s.loops i).loop2main_msg ≡ some Loop2MainMessage.datalogger_ownership_taken
      → OthersQuiet i s.loops
      → Phase (hear_step i s)
  unfolding process_loop process_datalogging_loop_msg OthersQuiet
  hear-taken i m new own in_mailbox out_mailbox others =
      let error = m.error in
      let owner = m.owner in
      let request = m.request in
      let pending = m.pending in
      let marks = is_quiet_in-not (s.loops i).main2loop_msg in_mailbox in
      let not_release = marks.0 in
      let not_take = marks.1 in
      Phase.owned i
        (record {
          error = ground (arith, out_mailbox, owner, error);
          owner = ground (arith, out_mailbox);
          new_owner = ground (arith, out_mailbox, new);
        })
        (ground (arith, out_mailbox, own)) (ground (arith, out_mailbox))
        (ground (arith, out_mailbox, not_take)) (ground (arith, out_mailbox, not_release, pending))
        (ground (arith, out_mailbox, request))
        (λ j other.
          let q = others j other in
          let a = q.in_mailbox in
          let b = q.out_mailbox in
          record {
            in_mailbox = ground (arith, out_mailbox, other, a);
            out_mailbox = ground (arith, out_mailbox, other, b);
          })

  hear-released :
      (i : ℕ)
      → IsOwned i s.main
      → (s.shared).owner ≡ none
      → (s.loops i).loop2main_msg ≡ some Loop2MainMessage.datalogger_ownership_released
      → is_quiet_in (s.loops i).main2loop_msg ≡ true
      → (s.main).request_ownership_release ≡ false
      → OthersQuiet i s.loops
      → Phase (hear_step i s)
  unfolding process_loop process_datalogging_loop_msg OthersQuiet
  hear-released i m own out_mailbox in_mailbox request others =
      let error = m.error in
      let owner = m.owner in
      Phase.free
        (record {
          error = ground (arith, out_mailbox, owner, error);
          owner = ground (arith, out_mailbox);
          request = ground (arith, out_mailbox, request);
          pending = ground (arith, out_mailbox);
        })
        (ground (arith, out_mailbox, own))
        λ j. elim (Bool-cases (i == j)) [
          | inl same ↦
              let here : i ≡ j = ground (arith, same) in
              subst (λ k. IsQuiet ((hear_step i s).loops k)) here
                (record {
                  in_mailbox = ground (arith, out_mailbox, in_mailbox);
                  out_mailbox = ground (arith, out_mailbox);
                })
          | inr other ↦
              let q = others j other in
              let a = q.in_mailbox in
              let b = q.out_mailbox in
              record {
                in_mailbox = ground (arith, out_mailbox, other, a);
                out_mailbox = ground (arith, out_mailbox, other, b);
              }
        ]

  hear_other :
      (i k : ℕ) → (k == i) ≡ false → OthersQuiet i s.loops → Phase s → Phase (hear_step k s)
  unfolding OthersQuiet
  hear_other i k other others phase =
      let q = others k (eq-swap k i other) in Similar-Phase (hear-quiet k q.out_mailbox) phase

  pub hear-Phase : (k : ℕ) → Phase s → Phase (hear_step k s)
  hear-Phase k (Phase.free m own quiet) =
      let q = quiet k in Similar-Phase (hear-quiet k q.out_mailbox) (Phase.free m own quiet)
  hear-Phase k (Phase.offered i m new own take quiet others) = elim (Bool-cases (k == i)) [
    | inl same ↦
        let here : i ≡ k = ground (arith, same) in
        subst (λ j. Phase (hear_step j s)) here
          (Similar-Phase (hear-quiet i quiet) (Phase.offered i m new own take quiet others))
    | inr other ↦ hear_other i k other others (Phase.offered i m new own take quiet others)
  ]
  hear-Phase k (Phase.taken i m new own in_mailbox out_mailbox others) =
      elim (Bool-cases (k == i)) [
        | inl same ↦
            let here : i ≡ k = ground (arith, same) in
            subst (λ j. Phase (hear_step j s)) here
              (hear-taken i m new own in_mailbox out_mailbox others)
        | inr other ↦
            hear_other i k other others (Phase.taken i m new own in_mailbox out_mailbox others)
      ]
  hear-Phase k (Phase.owned i m own out_mailbox not_take release once others) =
      elim (Bool-cases (k == i)) [
        | inl same ↦
            let here : i ≡ k = ground (arith, same) in
            subst (λ j. Phase (hear_step j s)) here
              (Similar-Phase (hear-quiet i out_mailbox)
                (Phase.owned i m own out_mailbox not_take release once others))
        | inr other ↦
            hear_other i k other others
              (Phase.owned i m own out_mailbox not_take release once others)
      ]
  hear-Phase k (Phase.released i m own out_mailbox in_mailbox pending request others) =
      elim (Bool-cases (k == i)) [
        | inl same ↦
            let here : i ≡ k = ground (arith, same) in
            subst (λ j. Phase (hear_step j s)) here
              (hear-released i m own out_mailbox in_mailbox request others)
        | inr other ↦
            hear_other i k other others
              (Phase.released i m own out_mailbox in_mailbox pending request others)
      ]
