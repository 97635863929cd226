-- ===== src/Comm/Transmit/Sending.antt =====
-- A response from `send_response` through any sequence of calls of `pop_data`.
use scrutiny_embedded.Base.{
  ℕ, true, false, List, [], ◌∷◌, ◌++◌, ◌+◌, ◌-◌, ◌≤◌, ◌<◌, ◌≡◌, refl, sym, ap, ap₂, subst, ◌∙◌, ltb,
  leb, if◌then◌else◌, length, take, drop, sub16, big_endian32, min, arith, inl, inr, Bool-cases,
  take_nil, take-take_next, drop-drop, take-take, take_all, drop_all, length-take, length-drop,
  length-append, append_assoc, bit_or,
}
use scrutiny_embedded.Protocol.{Response}
use scrutiny_embedded.Base.{◌⊎◌}
use scrutiny_embedded.Timebase.{Timebase}
use scrutiny_embedded.Tools.Crc.{crc32}
use scrutiny_embedded.Tools.Crc.Chain.{crc32-append}
use scrutiny_embedded.Comm.State.{CommHandler, State, RxFsmState}
use scrutiny_embedded.Comm.Transmit.{response_header, send_response, pop_bytes, pop_data}
use scrutiny_embedded.Comm.Transmit.Wire.{response_wire, Sendable, answer, answer_header}
use scrutiny_embedded.Comm.Transmit.Popping.{pop_bytes_lem}

-- The handler is sending `r`, and has sent `n` bytes of it.
pub record Sending (r : Response) (n : ℕ) (h : CommHandler) : Type 0 where
  pub transmitting : h.state ≡ State.transmitting
  pub response : h.active_response ≡ r
  pub total : h.nbytes_to_send ≡ r.data_length + 9
  pub sent : h.nbytes_sent ≡ n
  pub sendable : Sendable r

-- The response has been sent, and the next request is awaited.
pub record Finished (h : CommHandler) : Type 0 where
  pub is_idle : h.state ≡ State.idle
  pub ready : h.rx_state ≡ RxFsmState.wait_for_command
  pub released : h.request_received ≡ false
  pub nothing_left : h.nbytes_to_send ≡ 0
  pub rewound : h.nbytes_sent ≡ 0

-- After `n` bytes were asked for.
abbrev pub Progress : Response → ℕ → CommHandler → Type 0
Progress r n h = ((n < r.data_length + 9) × Sending r n h) ⊎ ((r.data_length + 9 ≤ n) × Finished h)

-- A sequence of calls of `pop_data`, and all that they wrote.
unfoldable pub pops : Timebase → CommHandler → List ℕ → CommHandler × List ℕ
pops timebase h [] = (h, [])
pops timebase h (n ∷ ns) =
    let first = pop_data timebase h n in
    let rest = pops timebase first.0 ns in (rest.0, first.1 ++ rest.1)

abbrev pub sum : List ℕ → ℕ
sum [] = 0
sum (n ∷ ns) = n + sum ns

-- No more is copied than what is left.
abbrev granted : CommHandler → ℕ → ℕ
granted h len =
    let left = sub16 h.nbytes_to_send h.nbytes_sent in if ltb left len then left else len

granted_lem :
    (r : Response) (n : ℕ) (h : CommHandler) (len : ℕ)
    → n < r.data_length + 9
    → Sending r n h
    → granted h len ≡ min len (r.data_length + 9 - n)
granted_lem r n h len lt s =
    ap₂ (λ t u. if ltb (sub16 t u) len then sub16 t u else len) s.total s.sent
    ∙ ap (λ t. if ltb t len then t else len)
        (let left : sub16 (r.data_length + 9) n ≡ r.data_length + 9 - n =
            omega (arith, lt, s.sendable.small) in
          left)
    ∙ ground arith

length-response_wire : (r : Response) → Sendable r → length (response_wire r) ≡ r.data_length + 9
unfolding response_header
length-response_wire r ok = omega (
  arith,
  length-append (take r.data_length r.payload) (big_endian32 r.crc),
  length-take r.data_length r.payload,
  ok.stored,
)

-- What is left ends the copy.
take-min :
    (r : Response) (n len : ℕ)
    → Sendable r
    → take (min len (r.data_length + 9 - n)) (drop n (response_wire r))
      ≡ take len (drop n (response_wire r))
take-min r n len ok =
    let rest = drop n (response_wire r) in
    let count : length rest ≤ r.data_length + 9 - n =
      omega (arith, length-drop n (response_wire r), length-response_wire r ok) in
    sym (take-take len (r.data_length + 9 - n) rest)
    ∙ ap (take len) (take_all (r.data_length + 9 - n) rest count)

popped_lem :
    (r : Response) (n : ℕ) (h : CommHandler) (len : ℕ)
    → n < r.data_length + 9
    → Sending r n h
    → pop_bytes h.active_response (granted h len) h.nbytes_sent
      ≡ (take len (drop n (response_wire r)), min (n + len) (r.data_length + 9))
popped_lem r n h len lt s =
    ap (λ t. pop_bytes t (granted h len) h.nbytes_sent) s.response
    ∙ ap₂ (pop_bytes r) (granted_lem r n h len lt s) s.sent
    ∙ pop_bytes_lem r (min len (r.data_length + 9 - n)) n s.sendable (omega (arith, lt))
    ∙ ap₂ (λ t u. (t, u)) (take-min r n len s.sendable) (omega (arith, lt))

pub pop_data-Sending :
    (timebase : Timebase) (r : Response) (n : ℕ) (h : CommHandler) (len : ℕ)
    → n < r.data_length + 9
    → Sending r n h
    → ((pop_data timebase h len).1 ≡ take len (drop n (response_wire r)))
      × Progress r (n + len) (pop_data timebase h len).0
unfolding pop_data
pop_data-Sending timebase r n h len lt s =
    rw (s.transmitting, popped_lem r n h len lt s, s.total)
      (elim (Bool-cases (leb (r.data_length + 9) (min (n + len) (r.data_length + 9)))) [
        | inl done ↦ rw (done) (
          refl,
          inr (
            ground (arith, done),
            record {
              is_idle = refl;
              ready = refl;
              released = refl;
              nothing_left = refl;
              rewound = refl;
            },
          ),
        )
        | inr more ↦
            let lt' : n + len < r.data_length + 9 = ground (arith, more) in
            rw (more) (
              refl,
              inl (
                lt',
                record {
                  transmitting = refl;
                  response = s.response;
                  total = refl;
                  sent = omega (arith, lt');
                  sendable = s.sendable;
                },
              ),
            )
      ])

pop_data-Finished :
    (timebase : Timebase) (h : CommHandler) (len : ℕ)
    → Finished h
    → pop_data timebase h len ≡ (h, [])
unfolding pop_data
pop_data-Finished timebase h len f = rw (f.is_idle) refl

pop_data-Progress :
    (timebase : Timebase) (r : Response) (n : ℕ) (h : CommHandler) (len : ℕ)
    → Sendable r
    → Progress r n h
    → ((pop_data timebase h len).1 ≡ take len (drop n (response_wire r)))
      × Progress r (n + len) (pop_data timebase h len).0
pop_data-Progress timebase r n h len ok (inl p) = pop_data-Sending timebase r n h len p.0 p.1
pop_data-Progress timebase r n h len ok (inr p) =
    rw
      (
        pop_data-Finished timebase h len p.1,
        drop_all n (response_wire r) (omega (arith, length-response_wire r ok, p.0)),
        take_nil {A = ℕ} len,
      )
      (refl, inr (omega (arith, p.0), p.1))

pops-Progress :
    (timebase : Timebase) (r : Response) (n : ℕ) (h : CommHandler) (lens : List ℕ)
    → Sendable r
    → Progress r n h
    → ((pops timebase h lens).1 ≡ take (sum lens) (drop n (response_wire r)))
      × Progress r (n + sum lens) (pops timebase h lens).0
unfolding pops
pops-Progress timebase r n h [] ok p = (refl, subst (λ t. Progress r t h) (omega arith) p)
pops-Progress timebase r n h (len ∷ lens) ok p =
    let first = pop_data-Progress timebase r n h len ok p in
    let rest = pops-Progress timebase r (n + len) (pop_data timebase h len).0 lens ok first.1 in
    (
      ap₂ (λ t u. t ++ u) first.0
            (rest.0 ∙ ap (take (sum lens)) (sym (drop-drop len n (response_wire r))))
          ∙ take-take_next len (sum lens) (drop n (response_wire r)),
      subst (λ t. Progress r t (pops timebase h (len ∷ lens)).0) (omega arith) rest.1,
    )

-- What the integrator owes a response.
pub record Prepared (h : CommHandler) (r : Response) : Type 0 where
  pub enabled : h.enabled ≡ true
  pub is_idle : h.state ≡ State.idle
  pub rewound : h.nbytes_sent ≡ 0
  pub room : r.data_length ≤ h.tx_buffer_size
  pub word : h.tx_buffer_size ≤ 0xFFFF - 16
  pub stored : r.data_length ≤ length r.payload

-- The response that the handler makes of `r`.
abbrev pub outgoing : CommHandler → Response → Response
outgoing h r =
    let active = h.active_response in
    record active {
      command_id = bit_or r.command_id 0x80;
      subfunction_id = r.subfunction_id;
      response_code = r.response_code;
      data_length = r.data_length;
      payload = r.payload;
      crc = crc32 (answer_header r ++ take r.data_length r.payload) 0;
    }

response_wire-outgoing : (h : CommHandler) (r : Response) → response_wire (outgoing h r) ≡ answer r
unfolding response_header
response_wire-outgoing h r = sym (
    append_assoc (answer_header r) (take r.data_length r.payload)
      (big_endian32 (crc32 (answer_header r ++ take r.data_length r.payload) 0)))

pub send_response-Sending :
    (h : CommHandler) (r : Response)
    → Prepared h r
    → ((send_response h r).1 ≡ true) × Sending (outgoing h r) 0 (send_response h r).0
unfolding send_response response_header
send_response-Sending h r p =
    let fits : ltb h.tx_buffer_size r.data_length ≡ false = ground (arith, p.room) in
    rw (p.enabled) (
      rw (p.is_idle) (
        rw (fits, sym (crc32-append (answer_header r) (take r.data_length r.payload) 0))
          (
            refl,
            record {
              transmitting = refl;
              response = refl;
              total = omega (arith, p.room, p.word);
              sent = p.rewound;
              sendable = record { stored = p.stored; small = omega (arith, p.room, p.word) };
            },
          )))

-- A response that fits, given to an idle handler: whatever the lengths that are asked for, what is
-- written is the beginning of the response's bytes with its checksum, as many as were asked for;
-- once all are out the handler is idle and awaits the next request, and before that it is sending.
pub pops-answer :
    (timebase : Timebase) (h : CommHandler) (r : Response) (lens : List ℕ)
    → Prepared h r
    → ((send_response h r).1 ≡ true)
      × ((pops timebase (send_response h r).0 lens).1 ≡ take (sum lens) (answer r))
      × Progress (outgoing h r) (sum lens) (pops timebase (send_response h r).0 lens).0
pops-answer timebase h r lens p =
    let start = send_response-Sending h r p in
    let all =
      pops-Progress timebase (outgoing h r) 0 (send_response h r).0 lens start.1.sendable
        (inl (omega arith, start.1)) in
    (
      start.0,
      all.0 ∙ ap (take (sum lens)) (response_wire-outgoing h r),
      subst (λ t. Progress (outgoing h r) t (pops timebase (send_response h r).0 lens).0)
          (omega arith) all.1,
    )
