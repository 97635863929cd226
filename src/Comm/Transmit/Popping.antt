-- ===== src/Comm/Transmit/Popping.antt =====
-- What one call of `pop_data` copies: a piece of the response's bytes.
use scrutiny_embedded.Base.{
  ℕ, List, ◌++◌, ◌+◌, ◌-◌, ◌≤◌, ◌<◌, ◌≡◌, ap, ap₂, ◌∙◌, ltb, leb, ◌&&◌, length, take, drop,
  big_endian32, min, arith, inl, inr, Bool-cases, take_congr, take-drop_append, length-take,
  length-drop, append-nil,
}
use scrutiny_embedded.Protocol.{Response}
use scrutiny_embedded.Comm.Transmit.{response_header, data_copy, crc_loop, pop_bytes}
use scrutiny_embedded.Comm.Transmit.Wire.{response_wire, Sendable}
use scrutiny_embedded.Comm.Transmit.Loops.{
  header_loop_lem, data_copy_lem, crc_loop_lem, crc_loop-zero, length-response_header,
}

-- The bytes of the payload and of the checksum.
abbrev behind_header : Response → List ℕ
behind_header r = take r.data_length r.payload ++ big_endian32 r.crc

-- The two copies behind the header, from `sent` on.
abbrev body_and_tail : Response → ℕ → ℕ → List ℕ × ℕ
body_and_tail r room sent =
    let body = data_copy r room sent in
    let tail = crc_loop r (room - length body.0) body.1 in (body.0 ++ tail.0, tail.1)

-- Where the payload ends within the copy, the rest is of the checksum; else nothing is left to copy.
tail_lem :
    (r : Response) (room sent : ℕ)
    → Sendable r
    → 5 ≤ sent
    → sent + room ≤ r.data_length + 9
    → crc_loop r
        (room - min room (r.data_length - (sent - 5)))
        (sent + min room (r.data_length - (sent - 5)))
      ≡ (
        take
            (room - (r.data_length - (sent - 5)))
            (drop (sent - 5 - r.data_length) (big_endian32 r.crc)),
        sent + room,
      )
tail_lem r room sent ok started fits =
    let k = sent - 5 - r.data_length in
    elim (Bool-cases (ltb (r.data_length - (sent - 5)) room)) [
      | inl more ↦
          let lt : r.data_length - (sent - 5) < room = ground (arith, more) in
          ap₂ (crc_loop r) (omega (arith, lt)) (omega (arith, lt, started))
          ∙ crc_loop_lem r (room - (r.data_length - (sent - 5))) k ok
              (omega (arith, fits, lt, started))
          ∙ ap (λ t. (take (room - (r.data_length - (sent - 5))) (drop k (big_endian32 r.crc)), t))
              (omega (arith, fits, lt, started))
      | inr done ↦
          let le : room ≤ r.data_length - (sent - 5) = ground (arith, done) in
          ap₂ (crc_loop r) (omega (arith, le)) (omega (arith, le))
          ∙ crc_loop-zero r (sent + room)
          ∙ ap (λ t. (t, sent + room))
              (take_congr 0 (room - (r.data_length - (sent - 5))) (drop k (big_endian32 r.crc))
                (omega (arith, le)))
    ]

body_and_tail_lem :
    (r : Response) (room sent : ℕ)
    → Sendable r
    → 5 ≤ sent
    → sent + room ≤ r.data_length + 9
    → body_and_tail r room sent ≡ (take room (drop (sent - 5) (behind_header r)), sent + room)
body_and_tail_lem r room sent ok started fits =
    let bytes = take r.data_length r.payload in
    let stored : length bytes ≡ r.data_length =
      omega (arith, length-take r.data_length r.payload, ok.stored) in
    let copied : length (take room (drop (sent - 5) bytes))
        ≡ min room (r.data_length - (sent - 5)) =
      omega
        (arith, length-take room (drop (sent - 5) bytes), length-drop (sent - 5) bytes, stored) in
    rw
      (
        data_copy_lem r room sent ok started fits,
        take-drop_append room (sent - 5) bytes (big_endian32 r.crc),
        copied,
        stored,
      )
      (ap (λ t. (take room (drop (sent - 5) bytes) ++ t.0, t.1))
        (tail_lem r room sent ok started fits))

pub pop_bytes_lem :
    (r : Response) (len sent : ℕ)
    → Sendable r
    → sent + len ≤ r.data_length + 9
    → pop_bytes r len sent ≡ (take len (drop sent (response_wire r)), sent + len)
unfolding pop_bytes
pop_bytes_lem r len sent ok fits =
    let head = take len (drop sent (response_header r)) in
    let five : length (response_header r) ≡ 5 = length-response_header r in
    let copied : length head ≡ min len (5 - sent) = omega (
      arith,
      length-take len (drop sent (response_header r)),
      length-drop sent (response_header r),
      five,
    ) in
    rw
      (
        header_loop_lem r len sent,
        take-drop_append len sent (response_header r) (behind_header r),
        copied,
        five,
      )
      (elim (Bool-cases (leb 5 (sent + min len (5 - sent)) && ltb (min len (5 - sent)) len)) [
        | inl more ↦
            let started : 5 ≤ sent + min len (5 - sent) = ground (arith, more) in
            rw (more) (
              ap (λ t. (head ++ t.0, t.1))
                (body_and_tail_lem r (len - min len (5 - sent)) (sent + min len (5 - sent)) ok
                  started (omega (arith, fits)))
              ∙ ap₂ (λ t u. (head ++ t, u))
                  (ap₂ (λ t u. take t (drop u (behind_header r))) (omega (arith, started))
                    (omega (arith, started)))
                  (omega arith))
        | inr done ↦
            let le : len ≤ 5 - sent = ground (arith, done) in
            rw
              (
                done,
                take_congr (len - (5 - sent)) 0 (drop (sent - 5) (behind_header r))
                    (omega (arith, le)),
                append-nil head,
              )
              (ap (λ t. (head, t)) (omega (arith, le)))
      ])
