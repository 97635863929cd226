-- ===== src/Comm/Transmit/Busy.antt =====
-- What comes while a response is being sent.
use scrutiny_embedded.Base.{ℕ, true, false, List, [], ◌∷◌, ◌≡◌, sym, subst, arith}
use scrutiny_embedded.Timebase.{Timebase}
use scrutiny_embedded.Protocol.{Response}
use scrutiny_embedded.Comm.State.{CommHandler, State}
use scrutiny_embedded.Comm.Receive.{receive_data}
use scrutiny_embedded.Comm.Transmit.{send_response}
use scrutiny_embedded.Comm.Transmit.Sending.{Sending}

-- Bytes that arrive, and responses that are handed over, in any order.
pub data Disturbance : Type 0 where
  arrival : Timebase → List ℕ → Disturbance
  response : Response → Disturbance

unfoldable pub disturb : CommHandler → List Disturbance → CommHandler
disturb h [] = h
disturb h (Disturbance.arrival t bytes ∷ rest) = disturb (receive_data t h bytes) rest
disturb h (Disturbance.response r ∷ rest) = disturb (send_response h r).0 rest

busy_response :
    (r : Response) (n : ℕ) (h : CommHandler) (r' : Response)
    → h.enabled ≡ true
    → Sending r n h
    → ((send_response h r').1 ≡ false)
      × Sending r n (send_response h r').0
      × ((send_response h r').0.enabled ≡ true)
unfolding send_response
busy_response r n h r' on s = ground (arith, on, s)

busy_arrival :
    (t : Timebase) (h : CommHandler) (bytes : List ℕ)
    → h.enabled ≡ true
    → h.state ≡ State.transmitting
    → receive_data t h bytes ≡ h
unfolding receive_data
busy_arrival t h [] on s = ground (arith, on, s)
busy_arrival t h (b ∷ bs) on s = ground (arith, on, s)

-- An enabled handler that is sending a response goes on with it at the same byte, whatever arrives and
-- whatever other responses it is given meanwhile; each of these is refused.
pub disturb-Sending :
    (r : Response) (n : ℕ) (h : CommHandler) (ds : List Disturbance) (r' : Response)
    → h.enabled ≡ true
    → Sending r n h
    → Sending r n (disturb h ds) × ((send_response (disturb h ds) r').1 ≡ false)
unfolding disturb
disturb-Sending r n h [] r' on s = (s, (busy_response r n h r' on s).0)
disturb-Sending r n h (Disturbance.arrival t bytes ∷ rest) r' on s =
    subst (λ g. Sending r n (disturb g rest) × ((send_response (disturb g rest) r').1 ≡ false))
      (sym (busy_arrival t h bytes on s.transmitting)) (disturb-Sending r n h rest r' on s)
disturb-Sending r n h (Disturbance.response q ∷ rest) r' on s =
    let one = busy_response r n h q on s in
    disturb-Sending r n (send_response h q).0 rest r' one.2 one.1
