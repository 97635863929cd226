-- ===== src/Comm/Session/Timeout.antt =====
-- When a session is lost, and which heartbeats keep it.
use scrutiny_embedded.Base.{
  ℕ, true, false, List, [], ◌∷◌, ◌+◌, ◌^◌, ◌≤◌, ◌<◌, ◌≡◌, ◌≢◌, sym, arith, inl, inr, ◌↔◌, leb,
  Bool-cases, subst,
}
use scrutiny_embedded.Timebase.{Timebase, step, get_timestamp, elapsed_since, has_expired}
use scrutiny_embedded.Timebase.Elapsed.{total, step-elapsed, step-word}
use scrutiny_embedded.Comm.State.{CommHandler, reset, reset_rx, reset_tx}
use scrutiny_embedded.Comm.Session.{process, heartbeat, connect, disconnect, heartbeat_timeout}

-- The clock steps and the handler is polled, over and over.
unfoldable pub polls : Timebase → CommHandler → List ℕ → CommHandler
polls t h [] = h
polls t h (d ∷ ds) = polls (step t d) (process (step t d) h) ds

process-inactive : (t : Timebase) (h : CommHandler) → h.session_active ≡ false → process t h ≡ h
unfolding process
process-inactive t h e = ground arith

-- A poll in time does nothing; a late one ends the session.
process-early :
    (t : Timebase) (h : CommHandler)
    → elapsed_since t h.heartbeat_timestamp < heartbeat_timeout
    → process t h ≡ h
unfolding process has_expired
process-early t h e = ground arith

process-late :
    (t : Timebase) (h : CommHandler)
    → heartbeat_timeout ≤ elapsed_since t h.heartbeat_timestamp
    → (process t h).session_active ≡ false
unfolding process has_expired reset reset_rx reset_tx
process-late t h e = ground arith

polls-inactive :
    (t : Timebase) (h : CommHandler) (ds : List ℕ)
    → h.session_active ≡ false
    → (polls t h ds).session_active ≡ false
unfolding polls
polls-inactive t h [] e = e
polls-inactive t h (d ∷ ds) e =
    subst (λ g. (polls (step t d) g ds).session_active ≡ false)
      (sym (process-inactive (step t d) h e)) (polls-inactive (step t d) h ds e)

-- The session was kept alive last at the time of its stamp.
pub record IsAlive (t : Timebase) (h : CommHandler) : Type 0 where
  pub active : h.session_active ≡ true
  pub clock : t.time_100ns < 2 ^ 32
  pub stamp : h.heartbeat_timestamp < 2 ^ 32
  pub in_time : elapsed_since t h.heartbeat_timestamp < heartbeat_timeout

polls-alive :
    (t : Timebase) (h : CommHandler) (ds : List ℕ)
    → IsAlive t h
    → elapsed_since t h.heartbeat_timestamp + total ds < 2 ^ 32
    → ((polls t h ds).session_active ≡ true)
      ↔ (elapsed_since t h.heartbeat_timestamp + total ds < heartbeat_timeout)
unfolding polls total
polls-alive t h [] a k = ground (arith, a)
polls-alive t h (d ∷ ds) a k =
    let e = elapsed_since t h.heartbeat_timestamp in
    let later = step-elapsed t h.heartbeat_timestamp d a.clock a.stamp (omega (arith, k)) in
    elim (Bool-cases (leb heartbeat_timeout (e + d))) [
      | inl late ↦
          let gone = process-late (step t d) h (ground (arith, late, later)) in
          let off = polls-inactive (step t d) (process (step t d) h) ds gone in
          ground (arith, off, late)
      | inr early ↦
          let in_time : e + d < heartbeat_timeout = ground (arith, early) in
          subst
            (λ g.
              ((polls (step t d) g ds).session_active ≡ true)
              ↔ (e + (d + total ds) < heartbeat_timeout))
            (sym (process-early (step t d) h (omega (arith, later, in_time))))
            (let rest =
                polls-alive (step t d) h ds
                  (record {
                    active = a.active;
                    clock = step-word t d;
                    stamp = a.stamp;
                    in_time = omega (arith, later, in_time);
                  })
                  (omega (arith, later, k)) in
              ground (arith, rest, later))
    ]

-- A session begins at a connection that succeeds, and goes on at each heartbeat that is accepted.
connect-IsAlive :
    (t : Timebase) (h : CommHandler)
    → t.time_100ns < 2 ^ 32
    → (connect t h).1 ≡ true
    → IsAlive t (connect t h).0
unfolding connect reset_rx get_timestamp elapsed_since
connect-IsAlive t h w e = ground (arith, w, e)

heartbeat-IsAlive :
    (t : Timebase) (h : CommHandler) (challenge : ℕ)
    → t.time_100ns < 2 ^ 32
    → (heartbeat t h challenge).1 ≡ true
    → IsAlive t (heartbeat t h challenge).0
unfolding heartbeat get_timestamp elapsed_since
heartbeat-IsAlive t h challenge w e = ground (arith, w, e)

heartbeat-stamped :
    (t : Timebase) (h : CommHandler) (challenge : ℕ)
    → t.time_100ns < 2 ^ 32
    → (heartbeat t h challenge).1 ≡ true
    → elapsed_since t (heartbeat t h challenge).0.heartbeat_timestamp ≡ 0
unfolding heartbeat get_timestamp elapsed_since
heartbeat-stamped t h challenge w e = ground (arith, w, e)

connect-stamped :
    (t : Timebase) (h : CommHandler)
    → t.time_100ns < 2 ^ 32
    → (connect t h).1 ≡ true
    → elapsed_since t (connect t h).0.heartbeat_timestamp ≡ 0
unfolding connect reset_rx get_timestamp elapsed_since
connect-stamped t h w e = ground (arith, w, e)

-- A connection that succeeds on a 32 bit clock, then a sequence of clock steps that add up to less
-- than 2 ^ 32, with a poll after each and no heartbeat: at the end the session is there exactly when
-- the steps add up to less than the heartbeat timeout.
pub polls-connect :
    (t : Timebase) (h : CommHandler) (ds : List ℕ)
    → t.time_100ns < 2 ^ 32
    → (connect t h).1 ≡ true
    → total ds < 2 ^ 32
    → ((polls t (connect t h).0 ds).session_active ≡ true) ↔ (total ds < heartbeat_timeout)
polls-connect t h ds w e k =
    let zero = connect-stamped t h w e in
    let all = polls-alive t (connect t h).0 ds (connect-IsAlive t h w e) (omega (arith, zero, k)) in
    ground (arith, all, zero)

-- The same from a heartbeat that is accepted: the timeout counts from it.
pub polls-heartbeat :
    (t : Timebase) (h : CommHandler) (challenge : ℕ) (ds : List ℕ)
    → t.time_100ns < 2 ^ 32
    → (heartbeat t h challenge).1 ≡ true
    → total ds < 2 ^ 32
    → ((polls t (heartbeat t h challenge).0 ds).session_active ≡ true)
      ↔ (total ds < heartbeat_timeout)
polls-heartbeat t h challenge ds w e k =
    let zero = heartbeat-stamped t h challenge w e in
    let all =
      polls-alive t (heartbeat t h challenge).0 ds (heartbeat-IsAlive t h challenge w e)
        (omega (arith, zero, k)) in
    ground (arith, all, zero)

-- After a heartbeat that is accepted the next one, at whatever time, is accepted exactly when its
-- challenge is another one, and one that is not accepted changes nothing.
pub heartbeat-heartbeat :
    (t t' : Timebase) (h : CommHandler) (challenge challenge' : ℕ)
    → (heartbeat t h challenge).1 ≡ true
    → (((heartbeat t' (heartbeat t h challenge).0 challenge').1 ≡ true) ↔ (challenge' ≢ challenge))
      × (challenge' ≡ challenge
          → (heartbeat t' (heartbeat t h challenge).0 challenge').0 ≡ (heartbeat t h challenge).0)
unfolding heartbeat
heartbeat-heartbeat t t' h challenge challenge' e = ground (arith, e)

-- A client that connects to an enabled handler without a session, leaves and connects again, while
-- nothing else is done, is given another session identifier the second time.
pub connect-disconnect :
    (t t' t'' : Timebase) (h : CommHandler)
    → h.enabled ≡ true
    → h.session_active ≡ false
    → h.session_counter < 2 ^ 32
    → (connect t'' (disconnect t' (connect t h).0)).0.session_id ≢ (connect t h).0.session_id
unfolding connect disconnect reset_rx reset_tx
connect-disconnect t t' t'' h on off word = ground (arith, on, off, word)
