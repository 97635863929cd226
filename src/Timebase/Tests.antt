-- ===== src/Timebase/Tests.antt =====
-- A timeout on a concrete clock.
use scrutiny_embedded.Base.{[], ◌∷◌, ◌≡◌, ◌≤◌, ◌↔◌, true, arith}
use scrutiny_embedded.Timebase.{Timebase, get_timestamp, has_expired}
use scrutiny_embedded.Timebase.Elapsed.{steps, total, steps-has_expired}

abbrev late : Timebase
late = record { time_100ns = 4294967290 }

-- The clock wraps at the second step.
steps-has_expired_example :
    (has_expired (steps late (3 ∷ 20 ∷ [])) (get_timestamp late) 23 ≡ true) ↔ (23 ≤ 23)
unfolding total
steps-has_expired_example = steps-has_expired late (3 ∷ 20 ∷ []) 23 (omega arith) (omega arith)
