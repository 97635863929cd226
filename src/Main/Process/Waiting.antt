-- ===== src/Main/Process/Waiting.antt =====
-- Calls of `process` while `process_request` answers a request with ProcessAgain.
use scrutiny_embedded.Base.{
  ℕ, false, ◌+◌, ◌^◌, ◌≤◌, ◌<◌, ◌≡◌, ◌&&◌, ◌∙◌, inl, inr, refl, ap, arith, List, [], ◌∷◌, ◌++◌, leb,
  Bool-cases, true, subst,
}
use scrutiny_embedded.Timebase
use scrutiny_embedded.Timebase.{Timebase, has_expired, elapsed_since}
use scrutiny_embedded.Protocol.{Request, Response}
use scrutiny_embedded.Protocol.ResponseCode.{ResponseCode, to_byte}
use scrutiny_embedded.Comm.State.{CommHandler}
use scrutiny_embedded.Comm.Session
use scrutiny_embedded.Comm.Session.{heartbeat_timeout}
use scrutiny_embedded.Comm.Transmit.{prepare_response}
use scrutiny_embedded.Comm.Transmit.Sending.{sum}
use scrutiny_embedded.Main.Process.Answers.{served}
use scrutiny_embedded.Main.Process.{MainHandler, max_process_time, process}
use scrutiny_embedded.Main.Process.Stalling.{
  Stalls, IsAgain, IsFailing, elapsed_step, stored, with_logic, process-Waits, conclude-again,
  send_response-fits, conclude-late, IsAgain-Waits,
}

process-fresh :
    (t : Timebase) (c : CommHandler)
    → (c.session_active && has_expired t c.heartbeat_timestamp heartbeat_timeout) ≡ false
    → Session.process t c ≡ c
unfolding Session.process
process-fresh t c fresh = ground (arith, fresh)

module _ {Data : Type 0}
    (process_request : MainHandler Data → Request → Response → MainHandler Data × Response) where
  served-comm_handler :
      (h : MainHandler Data) (d waited beaten : ℕ)
      → Stalls process_request h d
      → IsAgain h waited beaten
      → beaten + d < heartbeat_timeout
      → (served process_request h d).0.comm_handler ≡ prepare_response h.comm_handler
  unfolding served
  served-comm_handler h d waited beaten stalls a fresh =
      let w = IsAgain-Waits h d waited beaten a fresh in
      stalls.comm_handler
      ∙ ap prepare_response (process-fresh (Timebase.step h.timebase d) h.comm_handler w.session)

  served-again :
      (h : MainHandler Data) (d waited beaten : ℕ)
      → Stalls process_request h d
      → IsAgain h waited beaten
      → waited + d < 2 ^ 32
      → (let s = stored process_request (served process_request h d) in
          elapsed_since s.timebase s.process_again_timestamp ≡ waited + d)
  unfolding served
  served-again h d waited beaten stalls a small =
      let time = stalls.timebase in
      let timestamp = stalls.timestamp in
      rw time (
        rw timestamp
          (elapsed_step h.timebase h.process_again_timestamp d waited a.waited_lem small a.word))

  IsAgain-fails :
      (h : MainHandler Data) (d waited beaten : ℕ)
      → Stalls process_request h d
      → IsAgain h waited beaten
      → max_process_time ≤ waited + d
      → waited + d < 2 ^ 32
      → beaten + d < heartbeat_timeout
      → IsFailing (process process_request h d)
  unfolding served prepare_response has_expired
  IsAgain-fails h d waited beaten stalls a late small fresh =
      let r = served process_request h d in
      let s = stored process_request r in
      let code = stalls.code in
      let empty = stalls.empty in
      let taken = stalls.taken in
      let comm = served-comm_handler h d waited beaten stalls a fresh in
      let again = served-again h d waited beaten stalls a small in
      let failed = record r.1 { response_code = to_byte ResponseCode.failure_to_proceed } in
      let (transmitting, failing) =
        send_response-fits s.comm_handler failed (ap (λ c. c.enabled) comm ∙ a.comm_enabled)
          (ap (λ c. c.state) comm ∙ a.idle) empty in
      let e =
        process-Waits process_request h d (IsAgain-Waits h d waited beaten a fresh)
        ∙ ap (with_logic process_request) (
            conclude-late s r.1 code (taken ∙ a.taken) (ground (arith, again, late))
              transmitting) in
      record {
        processing = ap (λ x. x.processing_request) e;
        transmitting = ap (λ x. (x.comm_handler).state) e ∙ transmitting;
        code = ap (λ x. ((x.comm_handler).active_response).response_code) e ∙ failing;
      }

  IsAgain-waits :
      (h : MainHandler Data) (d waited beaten : ℕ)
      → Stalls process_request h d
      → IsAgain h waited beaten
      → waited + d < max_process_time
      → beaten + d < heartbeat_timeout
      → IsAgain (process process_request h d) (waited + d) (beaten + d)
  unfolding served prepare_response has_expired
  IsAgain-waits h d waited beaten stalls a early fresh =
      let r = served process_request h d in
      let s = stored process_request r in
      let code = stalls.code in
      let taken = stalls.taken in
      let on = stalls.enabled in
      let time = stalls.timebase in
      let timestamp = stalls.timestamp in
      let comm = served-comm_handler h d waited beaten stalls a fresh in
      let again = served-again h d waited beaten stalls a (omega arith) in
      let beat =
        elapsed_step h.timebase (h.comm_handler).heartbeat_timestamp d beaten a.beaten_lem
          (omega arith) a.beat_word in
      let e =
        process-Waits process_request h d (IsAgain-Waits h d waited beaten a fresh)
        ∙ ap (with_logic process_request)
            (conclude-again s r.1 code (taken ∙ a.taken) (ground (arith, again, early))) in
      let was = ap (λ x. x.process_again_timestamp) e ∙ timestamp in
      let beat_was =
        ap (λ x. (x.comm_handler).heartbeat_timestamp) e ∙ ap (λ c. c.heartbeat_timestamp) comm in
      let now = ap (λ x. x.timebase) e in
      record {
        enabled = ap (λ x. x.enabled) e ∙ on ∙ a.enabled;
        unserved = ap (λ x. x.processing_request) e;
        taken = ap (λ x. x.process_again_timestamp_taken) e ∙ taken ∙ a.taken;
        received =
            ap (λ x. (x.comm_handler).request_received) e
            ∙ ap (λ c. c.request_received) comm
            ∙ a.received;
        comm_enabled =
            ap (λ x. (x.comm_handler).enabled) e ∙ ap (λ c. c.enabled) comm ∙ a.comm_enabled;
        idle = ap (λ x. (x.comm_handler).state) e ∙ ap (λ c. c.state) comm ∙ a.idle;
        word = rw was a.word;
        beat_word = rw beat_was a.beat_word;
        waited_lem = ap (λ x. elapsed_since x.timebase x.process_again_timestamp) e ∙ again;
        beaten_lem = rw beat_was (rw now (rw time beat));
      }

-- Calls of `process`, each with the time since the one before.
pub runs :
    {Data : Type 0}
    → (MainHandler Data → Request → Response → MainHandler Data × Response)
    → MainHandler Data
    → List ℕ
    → MainHandler Data
runs process_request h [] = h
runs process_request h (d ∷ ds) = runs process_request (process process_request h d) ds

-- In each of the calls of a run `process_request` answers with ProcessAgain.
unfoldable pub AllStall :
    {Data : Type 0}
    → (MainHandler Data → Request → Response → MainHandler Data × Response)
    → MainHandler Data
    → List ℕ
    → Type 0
AllStall process_request h [] = true ≡ true
AllStall process_request h (d ∷ ds) =
    Stalls process_request h d × AllStall process_request (process process_request h d) ds

-- A run of calls in which a request waits until its time is over: it still waits after `before`, and the call
-- after `last` more fails it.
pub record Expires {Data : Type 0}
    (process_request : MainHandler Data → Request → Response → MainHandler Data × Response)
    (h : MainHandler Data) (ds : List ℕ) (waited beaten : ℕ) : Type 0 where
  pub before : List ℕ
  pub last : ℕ
  pub after : List ℕ
  pub split : ds ≡ before ++ (last ∷ after)
  pub early : waited + sum before < max_process_time
  pub late : max_process_time ≤ waited + sum before + last
  pub waits : IsAgain (runs process_request h before) (waited + sum before) (beaten + sum before)
  pub fails : IsFailing (process process_request (runs process_request h before) last)

-- A request has been answered with ProcessAgain and waits. Where `process_request` answers it so in each of the
-- calls that follow, which go on until `max_process_time` has passed since the first such answer and
-- end within the heartbeat timeout since the session's last heartbeat: the request waits through the
-- calls before that time, and the first call at or after it sends the response that it failed.
pub runs-Expires :
    {Data : Type 0}
    (process_request : MainHandler Data → Request → Response → MainHandler Data × Response)
    (h : MainHandler Data) (ds : List ℕ) (waited beaten : ℕ)
    → AllStall process_request h ds
    → IsAgain h waited beaten
    → waited < max_process_time
    → max_process_time ≤ waited + sum ds
    → beaten + sum ds < heartbeat_timeout
    → Expires process_request h ds waited beaten
unfolding runs AllStall
runs-Expires process_request h [] waited beaten stalls a early enough fresh = absurd (omega arith)
runs-Expires process_request h (d ∷ ds) waited beaten (stalls, more) a early enough fresh =
    elim (Bool-cases (leb max_process_time (waited + d))) [
      | inl late ↦ record {
        before = [];
        last = d;
        after = ds;
        split = refl;
        early = omega (arith, early);
        late = ground (arith, late);
        waits =
            subst (λ n. IsAgain h n (beaten + 0)) (omega arith)
              (subst (λ n. IsAgain h waited n) (omega arith) a);
        fails =
            IsAgain-fails process_request h d waited beaten stalls a (ground (arith, late))
              (omega arith) (omega arith);
      }
      | inr not_late ↦
          let next =
            IsAgain-waits process_request h d waited beaten stalls a (ground (arith, not_late))
              (omega arith) in
          let rest =
            runs-Expires process_request (process process_request h d) ds (waited + d) (beaten + d)
              more next (ground (arith, not_late)) (omega arith) (omega arith) in
          let total = sum rest.before in
          record {
            before = d ∷ rest.before;
            last = rest.last;
            after = rest.after;
            split = ap (λ t. d ∷ t) rest.split;
            early = omega (arith, rest.early);
            late = omega (arith, rest.late);
            waits =
                subst
                  (λ n.
                    IsAgain (runs process_request (process process_request h d) rest.before) n
                      (beaten + (d + total)))
                  (omega arith)
                  (subst
                    (λ n.
                      IsAgain (runs process_request (process process_request h d) rest.before)
                        (waited + d + total) n)
                    (omega arith) rest.waits);
            fails = rest.fails;
          }
    ]
