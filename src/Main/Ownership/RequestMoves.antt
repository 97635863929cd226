-- ===== src/Main/Ownership/RequestMoves.antt =====
-- The requests about the datalogger keep its ownership in one of its phases.
use scrutiny_embedded.Base.{
  ℕ, Bool, true, false, ◌≡◌, ◌∙◌, inl, inr, refl, sym, subst, arith, some, Bool-cases,
}
use scrutiny_embedded.Protocol.ResponseCode.{ResponseCode, is_ok}
use scrutiny_embedded.Datalogging.DataLogger.{DataLogger}
use scrutiny_embedded.Datalogging.DataLogger
use scrutiny_embedded.LoopHandler.{Shared}
use scrutiny_embedded.Main.Ownership.{Datalogging, has_owner}
use scrutiny_embedded.Main.Ownership.Requests.{
  ask_release, request_arm_trigger, request_disarm_trigger, finish_configure, request_reset,
}
use scrutiny_embedded.Main.Ownership.Steps.{System, IsSettled, configure_step, reset_step}
use scrutiny_embedded.Main.Ownership.Phases.{Phase}
use scrutiny_embedded.Main.Ownership.Similar.{SameOwnership, Similar-Phase}

module _ {Data : Type 0} (s : System Data) where
  -- Another state of the main handler's own, with the ownership as it is.
  Phase-main : (m : Datalogging) → SameOwnership s.main m → Phase s → Phase (record s { main = m })
  Phase-main m same =
      Similar-Phase
        (record { owner = refl; main = same; ins = λ j. inl refl; outs = λ j. inl refl })

  -- Another datalogger as well.
  Phase-datalogger :
      (m : Datalogging) (d : DataLogger Data)
      → SameOwnership s.main m
      → Phase s
      → (let shared = s.shared in
          Phase (record s { main = m; shared = record shared { datalogger = d } }))
  Phase-datalogger m d same =
      Similar-Phase
        (record { owner = refl; main = same; ins = λ j. inl refl; outs = λ j. inl refl })

  pub arm-Phase : Phase s → Phase (record s { main = (request_arm_trigger s.main).0 })
  unfolding request_arm_trigger
  arm-Phase = Phase-main (request_arm_trigger s.main).0 (record {
    error = ground arith;
    owner = ground arith;
    new_owner = ground arith;
    request = ground arith;
    pending = ground arith;
  })

  pub disarm-Phase : Phase s → Phase (record s { main = (request_disarm_trigger s.main).0 })
  unfolding request_disarm_trigger
  disarm-Phase = Phase-main (request_disarm_trigger s.main).0 (record {
    error = ground arith;
    owner = ground arith;
    new_owner = ground arith;
    request = ground arith;
    pending = ground arith;
  })

  -- The owner is asked to release, once.
  ask_release-Phase :
      (r : Bool)
      → has_owner (s.main).owner ≡ true
      → Phase s
      → (let m = s.main in
          Phase (record s { main = ask_release (record m { reading_in_progress = r }) }))
  unfolding ask_release
  ask_release-Phase r has (Phase.free m own quiet) =
      let owner = m.owner in absurd (ground (arith, owner, has))
  ask_release-Phase r has (Phase.offered i m new own take quiet others) =
      let owner = m.owner in absurd (ground (arith, owner, has))
  ask_release-Phase r has (Phase.taken i m new own in_mailbox out_mailbox others) =
      let owner = m.owner in absurd (ground (arith, owner, has))
  ask_release-Phase r has (Phase.owned i m own out_mailbox not_take release once others) =
      let error = m.error in
      let owner = m.owner in
      let new = m.new_owner in
      Phase.owned i
        (record {
          error = ground (arith, error);
          owner = ground (arith, owner);
          new_owner = ground (arith, new);
        })
        own out_mailbox not_take (ground (arith, release)) (ground (arith, once)) others
  ask_release-Phase r has (Phase.released i m own out_mailbox in_mailbox pending request others) =
      let error = m.error in
      let owner = m.owner in
      let new = m.new_owner in
      Phase.released i
        (record {
          error = ground (arith, error);
          owner = ground (arith, owner);
          new_owner = ground (arith, new);
        })
        own out_mailbox in_mailbox (ground (arith, pending)) (ground (arith, pending, request))
        others

  -- In a settled state with no owner nothing about ownership is under way.
  configure-free :
      (m : Datalogging) (d : DataLogger Data)
      → m.error ≡ (s.main).error
      → m.owner ≡ (s.main).owner
      → m.request_ownership_release ≡ (s.main).request_ownership_release
      → m.pending_ownership_release ≡ (s.main).pending_ownership_release
      → has_owner (s.main).owner ≡ false
      → IsSettled s
      → Phase s
      → (let shared = s.shared in
          Phase (record s { main = m; shared = record shared { datalogger = d } }))
  configure-free m d e o r p hasnt settled (Phase.free f own quiet) =
      Phase.free
        (record {
          error = e ∙ f.error;
          owner = o ∙ f.owner;
          request = r ∙ f.request;
          pending = p ∙ f.pending;
        })
        own quiet
  configure-free m d e o r p hasnt settled (Phase.offered i f new own take quiet others) =
      absurd (settled.not_asked i take)
  configure-free m d e o r p hasnt settled (Phase.taken i f new own in_mailbox out_mailbox others) =
      absurd (settled.not_taken i out_mailbox)
  configure-free m d e o r p hasnt settled
        (Phase.owned i f own out_mailbox not_take release once others) =
      let owner = f.owner in absurd (ground (arith, owner, hasnt))
  configure-free m d e o r p hasnt settled
        (Phase.released i f own out_mailbox in_mailbox pending request others) =
      let owner = f.owner in absurd (ground (arith, owner, hasnt))

  -- The phase of the system that a request leaves, from an equation for what it gives.
  Phase-of :
      (r r' : Datalogging × Shared Data × ResponseCode)
      → r ≡ r'
      → Phase (record s { main = r'.0; shared = r'.1 })
      → Phase (record s { main = r.0; shared = r.1 })
  Phase-of r r' e phase = subst (λ t. Phase (record s { main = t.0; shared = t.1 })) (sym e) phase

  pub reset-Phase : Phase s → Phase (reset_step s)
  unfolding request_reset
  reset-Phase phase =
      let m = s.main in
      let shared = s.shared in
      let d = DataLogger.reset shared.datalogger in
      elim (Bool-cases (has_owner (s.main).owner)) [
        | inl has ↦
            Phase-of (request_reset m shared) (ask_release m, shared, ResponseCode.process_again)
              (ground (arith, has)) (ask_release-Phase m.reading_in_progress has phase)
        | inr hasnt ↦
            Phase-of (request_reset m shared) (m, record shared { datalogger = d }, ResponseCode.ok)
              (ground (arith, hasnt))
              (Phase-datalogger m d
                (record {
                  error = refl;
                  owner = refl;
                  new_owner = refl;
                  request = refl;
                  pending = refl;
                })
                phase)
      ]

  pub configure-Phase :
      (code : ResponseCode) (decoded configured : DataLogger Data) (loop : ℕ)
      → IsSettled s
      → Phase s
      → Phase (configure_step code decoded configured loop s)
  unfolding finish_configure
  configure-Phase code decoded configured loop settled phase =
      let m = s.main in
      let m' = record m { reading_in_progress = false } in
      let shared = s.shared in
      let d = DataLogger.reset decoded in
      let d' = DataLogger.reset configured in
      elim (Bool-cases (has_owner (s.main).owner)) [
        | inl has ↦
            Phase-of (finish_configure code decoded configured loop m shared)
              (ask_release m', shared, ResponseCode.process_again) (ground (arith, has))
              (ask_release-Phase false has phase)
        | inr hasnt ↦ elim (Bool-cases (is_ok code)) [
          | inr refused ↦
              Phase-of (finish_configure code decoded configured loop m shared)
                (m', record shared { datalogger = d }, code) (ground (arith, hasnt, refused))
                (configure-free m' d refl refl refl refl hasnt settled phase)
          | inl accepted ↦ elim (Bool-cases configured.config_valid) [
            | inr bad ↦
                Phase-of (finish_configure code decoded configured loop m shared)
                  (m', record shared { datalogger = d' }, ResponseCode.invalid_request)
                  (ground (arith, hasnt, accepted, bad))
                  (configure-free m' d' refl refl refl refl hasnt settled phase)
            | inl valid ↦
                Phase-of (finish_configure code decoded configured loop m shared)
                  (
                    record m' { new_owner = some loop },
                    record shared { datalogger = configured },
                    ResponseCode.ok,
                  )
                  (ground (arith, hasnt, accepted, valid))
                  (configure-free (record m' { new_owner = some loop }) configured refl refl refl
                    refl hasnt settled phase)
          ]
        ]
      ]
