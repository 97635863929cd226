-- ===== src/Timebase/Elapsed.antt =====
-- Timeouts across the wrap of the clock.
use scrutiny_embedded.Base.{ℕ, ◌+◌, ◌%◌, ◌^◌, ◌≤◌, ◌<◌, ◌≡◌, List, [], ◌∷◌, true, arith, ◌↔◌}
use scrutiny_embedded.Timebase.{Timebase, step, get_timestamp, elapsed_since, has_expired}

-- The steps of a list, one after the other.
unfoldable pub steps : Timebase → List ℕ → Timebase
steps t [] = t
steps t (d ∷ ds) = steps (step t d) ds

unfoldable pub total : List ℕ → ℕ
total [] = 0
total (d ∷ ds) = d + total ds

step_time : (t : Timebase) (d : ℕ) → (step t d).time_100ns ≡ (t.time_100ns + d) % 2 ^ 32
unfolding step
step_time t d = omega arith

steps_time :
    (t : Timebase) (ds : List ℕ)
    → t.time_100ns < 2 ^ 32
    → (steps t ds).time_100ns ≡ (t.time_100ns + total ds) % 2 ^ 32
unfolding steps total
steps_time t [] h = omega arith
steps_time t (d ∷ ds) h =
    let one = step_time t d in omega (arith, one, steps_time (step t d) ds (omega (arith, one)))

pub step-elapsed :
    (t : Timebase) (ts d : ℕ)
    → t.time_100ns < 2 ^ 32
    → ts < 2 ^ 32
    → elapsed_since t ts + d < 2 ^ 32
    → elapsed_since (step t d) ts ≡ elapsed_since t ts + d
unfolding elapsed_since step
step-elapsed t ts d a b c = omega arith

pub step-word : (t : Timebase) (d : ℕ) → (step t d).time_100ns < 2 ^ 32
unfolding step
step-word t d = omega arith

-- On a clock below 2 ^ 32, a timeout that is started now has expired after a sequence of clock steps
-- exactly when the steps add up to it, wherever the clock wraps, as long as they add up to less than
-- 2 ^ 32.
pub steps-has_expired :
    (t : Timebase) (ds : List ℕ) (timeout : ℕ)
    → t.time_100ns < 2 ^ 32
    → total ds < 2 ^ 32
    → (has_expired (steps t ds) (get_timestamp t) timeout ≡ true) ↔ (timeout ≤ total ds)
unfolding has_expired get_timestamp
steps-has_expired t ds timeout h k = ground (arith, steps_time t ds h)
