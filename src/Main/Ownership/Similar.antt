-- ===== src/Main/Ownership/Similar.antt =====
-- Steps that are not about ownership keep its phase.
use scrutiny_embedded.Base.{ℕ, true, false, ◌≡◌, ◌⊎◌, ◌∙◌, inl, inr, sym, ap, arith, Option}
use scrutiny_embedded.LoopHandler.{Main2LoopMessage, Loop2MainMessage}
use scrutiny_embedded.LoopHandler.Messages.{is_quiet_in, is_quiet_out, IsQuiet}
use scrutiny_embedded.Main.Ownership.{Datalogging}
use scrutiny_embedded.Main.Ownership.Steps.{System}
use scrutiny_embedded.Main.Ownership.Phases.{
  is_release, is_take, IsFree, IsOwned, OthersQuiet, Phase, is_quiet_in-not,
}

-- A mailbox that is as it was, or holds nothing about ownership before and after.
abbrev pub KeptIn : Option Main2LoopMessage → Option Main2LoopMessage → Type 0
KeptIn a b = (b ≡ a) ⊎ ((is_quiet_in a ≡ true) × (is_quiet_in b ≡ true))

abbrev pub KeptOut : Option Loop2MainMessage → Option Loop2MainMessage → Type 0
KeptOut a b = (b ≡ a) ⊎ ((is_quiet_out a ≡ true) × (is_quiet_out b ≡ true))

pub record SameOwnership (m m' : Datalogging) : Type 0 where
  pub error : m'.error ≡ m.error
  pub owner : m'.owner ≡ m.owner
  pub new_owner : m'.new_owner ≡ m.new_owner
  pub request : m'.request_ownership_release ≡ m.request_ownership_release
  pub pending : m'.pending_ownership_release ≡ m.pending_ownership_release

pub record Similar {Data : Type 0} (s t : System Data) : Type 0 where
  pub owner : (t.shared).owner ≡ (s.shared).owner
  pub main : SameOwnership s.main t.main
  pub ins : (j : ℕ) → KeptIn (s.loops j).main2loop_msg (t.loops j).main2loop_msg
  pub outs : (j : ℕ) → KeptOut (s.loops j).loop2main_msg (t.loops j).loop2main_msg

KeptIn-quiet :
    (a b : Option Main2LoopMessage) → KeptIn a b → is_quiet_in a ≡ true → is_quiet_in b ≡ true
KeptIn-quiet a b (inl e) q = ap is_quiet_in e ∙ q
KeptIn-quiet a b (inr e) q = e.1

KeptOut-quiet :
    (a b : Option Loop2MainMessage) → KeptOut a b → is_quiet_out a ≡ true → is_quiet_out b ≡ true
KeptOut-quiet a b (inl e) q = ap is_quiet_out e ∙ q
KeptOut-quiet a b (inr e) q = e.1

-- What is not quiet stays.
KeptIn-eq : (a b : Option Main2LoopMessage) → KeptIn a b → is_quiet_in a ≡ false → b ≡ a
KeptIn-eq a b (inl e) q = e
KeptIn-eq a b (inr e) q = cc

KeptOut-eq : (a b : Option Loop2MainMessage) → KeptOut a b → is_quiet_out a ≡ false → b ≡ a
KeptOut-eq a b (inl e) q = e
KeptOut-eq a b (inr e) q = cc

KeptIn-marks :
    (a b : Option Main2LoopMessage)
    → KeptIn a b
    → (is_release b ≡ is_release a) × (is_take b ≡ is_take a)
KeptIn-marks a b (inl e) = (ap is_release e, ap is_take e)
KeptIn-marks a b (inr e) =
    let p = is_quiet_in-not a e.0 in let q = is_quiet_in-not b e.1 in (q.0 ∙ sym p.0, q.1 ∙ sym p.1)

IsFree-same : (m m' : Datalogging) → SameOwnership m m' → IsFree m → IsFree m'
IsFree-same m m' same f = record {
  error = same.error ∙ f.error;
  owner = same.owner ∙ f.owner;
  request = same.request ∙ f.request;
  pending = same.pending ∙ f.pending;
}

IsOwned-same : (i : ℕ) (m m' : Datalogging) → SameOwnership m m' → IsOwned i m → IsOwned i m'
IsOwned-same i m m' same f = record {
  error = same.error ∙ f.error;
  owner = same.owner ∙ f.owner;
  new_owner = same.new_owner ∙ f.new_owner;
}

module _ {Data : Type 0} {s t : System Data} (similar : Similar s t) where
  Similar-IsQuiet : (j : ℕ) → IsQuiet (s.loops j) → IsQuiet (t.loops j)
  Similar-IsQuiet j q = record {
    in_mailbox =
        KeptIn-quiet (s.loops j).main2loop_msg (t.loops j).main2loop_msg (similar.ins j)
          q.in_mailbox;
    out_mailbox =
        KeptOut-quiet (s.loops j).loop2main_msg (t.loops j).loop2main_msg (similar.outs j)
          q.out_mailbox;
  }

  Similar-others : (i : ℕ) → OthersQuiet i s.loops → OthersQuiet i t.loops
  unfolding OthersQuiet
  Similar-others i others j other = Similar-IsQuiet j (others j other)

  pub Similar-Phase : Phase s → Phase t
  Similar-Phase (Phase.free m own quiet) =
      Phase.free (IsFree-same s.main t.main similar.main m) (similar.owner ∙ own)
        (λ j. Similar-IsQuiet j (quiet j))
  Similar-Phase (Phase.offered i m new own take quiet others) =
      let same = similar.main in
      Phase.offered i (IsFree-same s.main t.main same m) (same.new_owner ∙ new)
        (similar.owner ∙ own)
        (KeptIn-eq (s.loops i).main2loop_msg (t.loops i).main2loop_msg (similar.ins i)
            (ap is_quiet_in take)
          ∙ take)
        (KeptOut-quiet (s.loops i).loop2main_msg (t.loops i).loop2main_msg (similar.outs i) quiet)
        (Similar-others i others)
  Similar-Phase (Phase.taken i m new own in_mailbox out_mailbox others) =
      let same = similar.main in
      Phase.taken i (IsFree-same s.main t.main same m) (same.new_owner ∙ new) (similar.owner ∙ own)
        (KeptIn-quiet (s.loops i).main2loop_msg (t.loops i).main2loop_msg (similar.ins i)
          in_mailbox)
        (KeptOut-eq (s.loops i).loop2main_msg (t.loops i).loop2main_msg (similar.outs i)
            (ap is_quiet_out out_mailbox)
          ∙ out_mailbox)
        (Similar-others i others)
  Similar-Phase (Phase.owned i m own out_mailbox not_take release once others) =
      let same = similar.main in
      let marks =
        KeptIn-marks (s.loops i).main2loop_msg (t.loops i).main2loop_msg (similar.ins i) in
      let request = same.request in
      let pending = same.pending in
      Phase.owned i (IsOwned-same i s.main t.main same m) (similar.owner ∙ own)
        (KeptOut-quiet (s.loops i).loop2main_msg (t.loops i).loop2main_msg (similar.outs i)
          out_mailbox)
        (marks.1 ∙ not_take) (marks.0 ∙ release ∙ sym pending)
        (ground (arith, once, request, pending)) (Similar-others i others)
  Similar-Phase (Phase.released i m own out_mailbox in_mailbox pending request others) =
      let same = similar.main in
      Phase.released i (IsOwned-same i s.main t.main same m) (similar.owner ∙ own)
        (KeptOut-eq (s.loops i).loop2main_msg (t.loops i).loop2main_msg (similar.outs i)
            (ap is_quiet_out out_mailbox)
          ∙ out_mailbox)
        (KeptIn-quiet (s.loops i).main2loop_msg (t.loops i).main2loop_msg (similar.ins i)
          in_mailbox)
        (same.pending ∙ pending) (same.request ∙ request) (Similar-others i others)
