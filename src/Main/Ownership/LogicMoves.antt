-- ===== src/Main/Ownership/LogicMoves.antt =====
-- The datalogging logic of the main handler keeps the ownership in one of its phases.
use scrutiny_embedded.Base.{
  ℕ, true, false, not, ◌&&◌, ◌==◌, ◌≡◌, inl, inr, refl, sym, subst, arith, none, some, Bool-cases,
  Option-cases,
}
use scrutiny_embedded.LoopHandler.{has_content}
use scrutiny_embedded.LoopHandler.Messages.{is_quiet_out, IsQuiet}
use scrutiny_embedded.Main.Ownership.{
  process_datalogging_logic, logic_of_owner, logic_of_new_owner, logic_without_owner,
}
use scrutiny_embedded.Main.Ownership.Steps.{System, think_step}
use scrutiny_embedded.Main.Ownership.Phases.{IsFree, IsOwned, OthersQuiet, Phase}
use scrutiny_embedded.Main.Ownership.Similar.{KeptIn, Similar, Similar-Phase}

module _ {Data : Type 0} (s : System Data) where
  -- With no owner and nobody asked to be one.
  think-idle : IsFree s.main → (s.main).new_owner ≡ none → Similar s (think_step s)
  unfolding process_datalogging_logic logic_without_owner
  think-idle m new =
      let error = m.error in
      let owner = m.owner in
      record {
        owner = refl;
        main = record {
          error = ground (arith, error, owner, new);
          owner = ground (arith, error, owner, new);
          new_owner = ground (arith, error, owner, new);
          request = ground (arith, error, owner, new);
          pending = ground (arith, error, owner, new);
        };
        ins = λ j. inl (ground (arith, error, owner, new));
        outs = λ j. inl (ground (arith, error, owner, new));
      }

  -- The loop that is to own the datalogger has a message still.
  think-waiting :
      (k : ℕ)
      → IsFree s.main
      → (s.main).new_owner ≡ some k
      → has_content (s.loops k).main2loop_msg ≡ true
      → Similar s (think_step s)
  unfolding process_datalogging_logic logic_without_owner logic_of_new_owner
  think-waiting k m new full =
      let error = m.error in
      let owner = m.owner in
      record {
        owner = refl;
        main = record {
          error = ground (arith, error, owner, new, full);
          owner = ground (arith, error, owner, new, full);
          new_owner = ground (arith, error, owner, new, full);
          request = ground (arith, error, owner, new, full);
          pending = ground (arith, error, owner, new, full);
        };
        ins = λ j. inl (ground (arith, error, owner, new, full));
        outs = λ j. inl (ground (arith, error, owner, new, full));
      }

  think-offers :
      (k : ℕ)
      → IsFree s.main
      → (s.shared).owner ≡ none
      → (s.main).new_owner ≡ some k
      → has_content (s.loops k).main2loop_msg ≡ false
      → ((j : ℕ) → IsQuiet (s.loops j))
      → Phase (think_step s)
  unfolding process_datalogging_logic logic_without_owner logic_of_new_owner OthersQuiet
  think-offers k m own new empty quiet =
      let error = m.error in
      let owner = m.owner in
      let request = m.request in
      let pending = m.pending in
      let q = quiet k in
      let out_mailbox = q.out_mailbox in
      Phase.offered k
        (record {
          error = ground (arith, error, owner, new, empty);
          owner = ground (arith, error, owner, new, empty);
          request = ground (arith, error, owner, new, empty, request);
          pending = ground (arith, error, owner, new, empty, pending);
        })
        (ground (arith, error, owner, new, empty)) own (ground (arith, error, owner, new, empty))
        (ground (arith, error, owner, new, empty, out_mailbox))
        λ j other.
          let r = quiet j in
          let a = r.in_mailbox in
          let b = r.out_mailbox in
          record {
            in_mailbox = ground (arith, error, owner, new, empty, other, a);
            out_mailbox = ground (arith, error, owner, new, empty, other, b);
          }

  -- With an owner that is not to be asked to release.
  think-owner :
      (i : ℕ)
      → IsOwned i s.main
      → (s.main).request_ownership_release ≡ false
      → Similar s (think_step s)
  unfolding process_datalogging_logic logic_of_owner
  think-owner i m request =
      let error = m.error in
      let owner = m.owner in
      record {
        owner = refl;
        main = record {
          error = ground (arith, error, owner, request);
          owner = ground (arith, error, owner, request);
          new_owner = ground (arith, error, owner, request);
          request = ground (arith, error, owner, request);
          pending = ground (arith, error, owner, request);
        };
        ins = λ j. elim (Bool-cases (i == j && not (has_content (s.loops i).main2loop_msg))) [
          | inl told ↦
              let here : i ≡ j = ground (arith, told) in
              let empty : has_content (s.loops i).main2loop_msg ≡ false = ground (arith, told) in
              subst (λ k. KeptIn (s.loops k).main2loop_msg ((think_step s).loops k).main2loop_msg)
                here (inr (ground (arith, empty), ground (arith, error, owner, request, empty)))
          | inr untold ↦ inl (ground (arith, error, owner, request, untold))
        ];
        outs = λ j. inl (ground (arith, error, owner, request));
      }

  think-full :
      (i : ℕ) → IsOwned i s.main → has_content (s.loops i).main2loop_msg ≡ true → think_step s ≡ s
  unfolding process_datalogging_logic logic_of_owner
  think-full i m full =
      let error = m.error in let owner = m.owner in ground (arith, error, owner, full)

  think-releases :
      (i : ℕ)
      → IsOwned i s.main
      → (s.shared).owner ≡ some i
      → is_quiet_out (s.loops i).loop2main_msg ≡ true
      → has_content (s.loops i).main2loop_msg ≡ false
      → (s.main).request_ownership_release ≡ true
      → OthersQuiet i s.loops
      → Phase (think_step s)
  unfolding process_datalogging_logic logic_of_owner OthersQuiet
  think-releases i m own out_mailbox empty request others =
      let error = m.error in
      let owner = m.owner in
      let new = m.new_owner in
      Phase.owned i
        (record {
          error = ground (arith, error, owner, request, empty);
          owner = ground (arith, error, owner, request, empty);
          new_owner = ground (arith, error, owner, request, empty, new);
        })
        own (ground (arith, error, owner, request, empty, out_mailbox))
        (ground (arith, error, owner, request, empty))
        (ground (arith, error, owner, request, empty))
        (ground (arith, error, owner, request, empty))
        λ j other.
          let r = others j other in
          let a = r.in_mailbox in
          let b = r.out_mailbox in
          record {
            in_mailbox = ground (arith, error, owner, request, empty, other, a);
            out_mailbox = ground (arith, error, owner, request, empty, other, b);
          }

  pub think-Phase : Phase s → Phase (think_step s)
  think-Phase (Phase.free m own quiet) = elim (Option-cases (s.main).new_owner) [
    | inl nobody ↦ Similar-Phase (think-idle m nobody) (Phase.free m own quiet)
    | inr wanted ↦
        let k = wanted.0 in
        elim (Bool-cases (has_content (s.loops k).main2loop_msg)) [
          | inl full ↦ Similar-Phase (think-waiting k m wanted.1 full) (Phase.free m own quiet)
          | inr empty ↦ think-offers k m own wanted.1 empty quiet
        ]
  ]
  think-Phase (Phase.offered i m new own take quiet others) =
      Similar-Phase (think-idle m new) (Phase.offered i m new own take quiet others)
  think-Phase (Phase.taken i m new own in_mailbox out_mailbox others) =
      Similar-Phase (think-idle m new) (Phase.taken i m new own in_mailbox out_mailbox others)
  think-Phase (Phase.owned i m own out_mailbox not_take release once others) =
      elim (Bool-cases (s.main).request_ownership_release) [
        | inl request ↦ elim (Bool-cases (has_content (s.loops i).main2loop_msg)) [
          | inl full ↦
              subst Phase (sym (think-full i m full))
                (Phase.owned i m own out_mailbox not_take release once others)
          | inr empty ↦ think-releases i m own out_mailbox empty request others
        ]
        | inr request ↦
            Similar-Phase (think-owner i m request)
              (Phase.owned i m own out_mailbox not_take release once others)
      ]
  think-Phase (Phase.released i m own out_mailbox in_mailbox pending request others) =
      Similar-Phase (think-owner i m request)
        (Phase.released i m own out_mailbox in_mailbox pending request others)
