-- ===== src/Comm/Frame/Delivery.antt =====
-- A frame that comes in any pieces gets the verdict that its format asks for.
use scrutiny_embedded.Base.{
  ℕ, Bool, true, false, ◌&&◌, List, [], ◌∷◌, ◌++◌, ◌^◌, ◌<◌, ◌≡◌, length, refl, sym, ap, subst, ◌∙◌,
  arith, ◌==◌, IsBytes, append-nil, big_endian32,
}
use scrutiny_embedded.Timebase.{Timebase, has_expired}
use scrutiny_embedded.Comm.State.{CommHandler, RxFsmState, is_transmitting}
use scrutiny_embedded.Comm.Receive.{before_receive, receive_data, rx_timeout}
use scrutiny_embedded.Comm.Valid.{IsValid}
use scrutiny_embedded.Comm.Run.{run}
use scrutiny_embedded.Comm.Frame.{Frame, frame_crc, wire, Fits, admitted, Verdict}
use scrutiny_embedded.Comm.Frame.Awaits.{Underway}
use scrutiny_embedded.Comm.Frame.Accept.{run-Underway, run-Verdict}
use scrutiny_embedded.Comm.Frame.Stream.{
  receive_data-run, receive_data_stamp, before_receive-SameSession, before_receive-Underway,
  start-Underway, receive_all, all_bytes, Timely,
}

IsBytes-append : (xs ys : List ℕ) → IsBytes xs → IsBytes ys → IsBytes (xs ++ ys)
IsBytes-append [] ys h k = k
IsBytes-append (x ∷ xs) ys h k = (h.0, IsBytes-append xs ys h.1 k)

IsBytes-left : (xs ys : List ℕ) → IsBytes (xs ++ ys) → IsBytes xs
IsBytes-left [] ys h = tt
IsBytes-left (x ∷ xs) ys h = (h.0, IsBytes-left xs ys h.1)

IsBytes-right : (xs ys : List ℕ) → IsBytes (xs ++ ys) → IsBytes ys
IsBytes-right [] ys h = h
IsBytes-right (x ∷ xs) ys h = IsBytes-right xs ys h.1

wire-IsBytes :
    (f : Frame) (c : ℕ)
    → f.command < 256
    → f.subfunction < 256
    → IsBytes f.payload
    → IsBytes (wire f c)
wire-IsBytes f c h k p = (
  h,
  (k, (omega arith, (omega arith, IsBytes-append f.payload (big_endian32 c) p (omega arith)))),
)

module _ (f : Frame) (c : ℕ) (word : c < 2 ^ 32) where
  abbrev Decided : Bool → CommHandler → Type 0
  Decided active g = Verdict ((frame_crc f == c) && admitted active f) f g

  -- What holds once a piece is in, with `more` to come.
  record Piece (t : Timebase) (h g : CommHandler) (more : List ℕ) : Type 0 where
    underway : Underway f c g more
    valid : IsValid g
    enabled : g.enabled ≡ true
    session : g.session_active ≡ h.session_active
    stamp : g.last_rx_timestamp ≡ t.time_100ns

  module _ (t : Timebase) (b : ℕ) (bs more : List ℕ) (h : CommHandler) (v : IsValid h)
      (on : h.enabled ≡ true) (quiet : is_transmitting h.state ≡ false)
      (u : Underway f c (before_receive t h) ((b ∷ bs) ++ more))
      (bytes : IsBytes ((b ∷ bs) ++ more)) (short : length (b ∷ bs) < 2 ^ 16) where
    enters :
        (receive_data t h (b ∷ bs) ≡ run t (before_receive t h) (b ∷ bs))
        × IsValid (receive_data t h (b ∷ bs))
    enters = receive_data-run t h b bs v on quiet (IsBytes-left (b ∷ bs) more bytes) short

    middle-Piece : 0 < length more → Piece t h (receive_data t h (b ∷ bs)) more
    middle-Piece some =
        let ran = run-Underway t f c word (b ∷ bs) more (before_receive t h) u some in
        let start = before_receive-SameSession t h in
        record {
          underway = subst (λ g. Underway f c g more) (sym enters.0) ran.0;
          valid = enters.1;
          enabled = ap (λ g. g.enabled) enters.0 ∙ ran.1.enabled ∙ start.enabled ∙ on;
          session = ap (λ g. g.session_active) enters.0 ∙ ran.1.session ∙ start.session;
          stamp = receive_data_stamp t h (b ∷ bs) enters.0;
        }

    last_piece : more ≡ [] → Decided h.session_active (receive_data t h (b ∷ bs))
    last_piece e =
        let start = before_receive-SameSession t h in
        let all : Underway f c (before_receive t h) (b ∷ bs) =
          subst (λ r. Underway f c (before_receive t h) r)
            (ap (λ r. (b ∷ bs) ++ r) e ∙ append-nil (b ∷ bs)) u in
        subst (λ (a : Bool). Decided a (receive_data t h (b ∷ bs))) start.session
          (subst (λ g. Decided (before_receive t h).session_active g) (sym enters.0)
            (run-Verdict t f c word b bs (before_receive t h) all))

  pieces-Decided :
      (rest : List (Timebase × List ℕ)) (t : Timebase) (b : ℕ) (bs : List ℕ) (h : CommHandler)
      → IsValid h
      → h.enabled ≡ true
      → is_transmitting h.state ≡ false
      → Underway f c (before_receive t h) ((b ∷ bs) ++ all_bytes rest)
      → IsBytes ((b ∷ bs) ++ all_bytes rest)
      → length (b ∷ bs) < 2 ^ 16
      → Timely t.time_100ns rest
      → Decided h.session_active (receive_all (receive_data t h (b ∷ bs)) rest)
  unfolding receive_all all_bytes
  pieces-Decided [] t b bs h v on quiet u bytes short timely =
      last_piece t b bs [] h v on quiet u bytes short refl
  pieces-Decided ((t', []) ∷ rest) t b bs h v on quiet u bytes short timely =
      absurd (omega (arith, timely.0))
  pieces-Decided ((t', b' ∷ bs') ∷ rest) t b bs h v on quiet u bytes short timely =
      let more : List ℕ = (b' ∷ bs') ++ all_bytes rest in
      let p : Piece t h (receive_data t h (b ∷ bs)) more =
        middle-Piece t b bs more h v on quiet u bytes short (omega arith) in
      let in_time : has_expired t' (receive_data t h (b ∷ bs)).last_rx_timestamp rx_timeout
          ≡ false =
        rw p.stamp timely.2 in
      subst
        (λ (a : Bool).
          Decided a (receive_all (receive_data t' (receive_data t h (b ∷ bs)) (b' ∷ bs')) rest))
        p.session
        (pieces-Decided rest t' b' bs' (receive_data t h (b ∷ bs)) p.valid p.enabled
          p.underway.quiet (before_receive-Underway t' f c _ more in_time p.underway)
          (IsBytes-right (b ∷ bs) more bytes) timely.1 timely.3)

-- The handler is ready for a request.
pub record IsReady (h : CommHandler) : Type 0 where
  pub valid : IsValid h
  pub enabled : h.enabled ≡ true
  pub waiting : h.rx_state ≡ RxFsmState.wait_for_command
  pub pending : h.request_received ≡ false
  pub quiet : is_transmitting h.state ≡ false

-- Take a handler that is ready for a request, and the bytes of a request frame that fits its buffer,
-- with any checksum `c`, in any pieces that are not empty and do not keep it waiting for the
-- reception timeout. If `c` is the checksum of the frame and the handler has a session, or the
-- request is a connection or a discovery with its magic, then the request ends up accepted: its
-- identifiers, its length and its payload are there to be processed. In every other case it is
-- dropped, and the handler waits for the next command.
pub receive_all-wire :
    (f : Frame) (c : ℕ) (h : CommHandler) (t : Timebase) (b : ℕ) (bs : List ℕ)
    (rest : List (Timebase × List ℕ))
    → IsReady h
    → Fits f h
    → c < 2 ^ 32
    → all_bytes ((t, b ∷ bs) ∷ rest) ≡ wire f c
    → length (b ∷ bs) < 2 ^ 16
    → Timely t.time_100ns rest
    → Verdict
        ((frame_crc f == c) && admitted h.session_active f)
        f
        (receive_all h ((t, b ∷ bs) ∷ rest))
unfolding receive_all all_bytes
receive_all-wire f c h t b bs rest ready fits word e short timely =
    pieces-Decided f c word rest t b bs h ready.valid ready.enabled ready.quiet
      (subst (λ r. Underway f c (before_receive t h) r) (sym e)
        (start-Underway t f c h ready.waiting fits ready.pending ready.quiet))
      (subst IsBytes (sym e)
        (wire-IsBytes f c (omega (arith, fits.command)) fits.subfunction fits.payload))
      short timely
