-- ===== src/Comm/Transmit/Loops.antt =====
-- What the three copies of `pop_data` write: pieces of the header, of the payload and of the checksum.
use scrutiny_embedded.Base.{
  ℕ, zero, suc, List, [], ◌∷◌, ◌+◌, ◌-◌, ◌≤◌, ◌<◌, ◌≡◌, refl, sym, ap, ap₂, subst, ◌∙◌, ltb,
  if◌then◌else◌, length, take, drop, u16, sub16, ◌>>>◌, low_bits, big_endian32, min, arith, inl,
  inr, Bool-cases, take_nil, drop_congr, take-take, drop-take, drop_all, length-take,
}
use scrutiny_embedded.Protocol.{Response}
use scrutiny_embedded.Comm.Transmit.{response_header, header_byte, header_loop, data_copy, crc_loop}
use scrutiny_embedded.Comm.Transmit.Wire.{Sendable}

drop-header :
    (r : Response) (sent : ℕ)
    → sent < 5
    → drop sent (response_header r) ≡ header_byte r sent ∷ drop (suc sent) (response_header r)
unfolding response_header header_byte
drop-header r zero lt = refl
drop-header r (suc zero) lt = refl
drop-header r (suc (suc zero)) lt = refl
drop-header r (suc (suc (suc zero))) lt = refl
drop-header r (suc (suc (suc (suc zero)))) lt = refl
drop-header r (suc (suc (suc (suc (suc n))))) lt = absurd (omega arith)

pub length-response_header : (r : Response) → length (response_header r) ≡ 5
unfolding response_header
length-response_header r = refl

pub header_loop_lem :
    (r : Response) (room sent : ℕ)
    → header_loop r room sent
      ≡ (take room (drop sent (response_header r)), sent + min room (5 - sent))
unfolding header_loop
header_loop_lem r zero sent = ap (λ t. ([], t)) (omega arith)
header_loop_lem r (suc room) sent = elim (Bool-cases (ltb sent 5)) [
  | inl lt ↦
      rw (lt, header_loop_lem r room (sent + 1), drop-header r sent (ground (arith, lt)))
        (ap₂ (λ t u. (header_byte r sent ∷ t, u))
          (ap (take room) (drop_congr (sent + 1) (suc sent) (response_header r) (omega arith)))
          (ground (arith, lt)))
  | inr ge ↦
      rw (ge, drop_all sent (response_header r) (ground (arith, ge, length-response_header r)))
        (ap (λ t. ([], t)) (ground (arith, ge)))
]

copied_lem :
    (n room k : ℕ) (xs : List ℕ)
    → k ≤ n
    → take (min room (n - k)) (drop (n - (n - k)) xs) ≡ take room (drop k (take n xs))
copied_lem n room k xs le =
    ap (take (min room (n - k))) (drop_congr (n - (n - k)) k xs (omega (arith, le)))
    ∙ sym (ap (take room) (drop-take k n xs) ∙ take-take room (n - k) (drop k xs))

-- The part of the payload.
pub data_copy_lem :
    (r : Response) (room sent : ℕ)
    → Sendable r
    → 5 ≤ sent
    → sent + room ≤ r.data_length + 9
    → data_copy r room sent ≡ (
      take room (drop (sent - 5) (take r.data_length r.payload)),
      sent + min room (r.data_length - (sent - 5)),
    )
unfolding data_copy
data_copy_lem r room sent ok started fits =
    let position : sub16 sent 5 ≡ sent - 5 = omega (arith, started, fits, ok.small) in
    elim (Bool-cases (ltb (sent - 5) r.data_length)) [
      | inl more ↦
          let lt : sent - 5 < r.data_length = ground (arith, more) in
          let remaining : sub16 r.data_length (sent - 5) ≡ r.data_length - (sent - 5) =
            omega (arith, lt, ok.small) in
          let count : (if ltb room (r.data_length - (sent - 5))
                then room
                else r.data_length - (sent - 5))
              ≡ min room (r.data_length - (sent - 5)) =
            ground arith in
          let sum : u16 (sent + min room (r.data_length - (sent - 5)))
              ≡ sent + min room (r.data_length - (sent - 5)) =
            omega (arith, fits, ok.small) in
          rw (position, more, remaining, count, sum)
            (ap (λ t. (t, sent + min room (r.data_length - (sent - 5))))
              (copied_lem r.data_length room (sent - 5) r.payload (omega (arith, lt))))
      | inr done ↦
          rw
            (
              position,
              done,
              drop_all (sent - 5) (take r.data_length r.payload)
                  (ground (arith, done, length-take r.data_length r.payload)),
              take_nil {A = ℕ} room,
            )
            (ap (λ t. ([], t)) (ground (arith, done)))
    ]

-- The byte of the checksum at index `k`.
abbrev crc_digit : Response → ℕ → ℕ
crc_digit r zero = low_bits (r.crc >>> 24) 8
crc_digit r (suc zero) = low_bits (r.crc >>> 16) 8
crc_digit r (suc (suc zero)) = low_bits (r.crc >>> 8) 8
crc_digit r _ = low_bits (r.crc >>> 0) 8

drop-crc :
    (r : Response) (k : ℕ)
    → k < 4
    → drop k (big_endian32 r.crc) ≡ crc_digit r k ∷ drop (suc k) (big_endian32 r.crc)
drop-crc r zero lt = refl
drop-crc r (suc zero) lt = refl
drop-crc r (suc (suc zero)) lt = refl
drop-crc r (suc (suc (suc zero))) lt = ap (λ t. t ∷ []) (omega arith)
drop-crc r (suc (suc (suc (suc k)))) lt = absurd (omega arith)

position_is : {r : Response} → Sendable r → u16 (r.data_length + 5) ≡ r.data_length + 5
position_is ok = omega (arith, ok.small)

next_is :
    {r : Response} {k : ℕ}
    → Sendable r
    → k < 4
    → u16 (r.data_length + 5 + k + 1) ≡ r.data_length + 5 + suc k
next_is ok lt = omega (arith, ok.small, lt)

-- One round of the loop.
crc_loop-suc :
    (r : Response) (room k : ℕ)
    → Sendable r
    → k < 4
    → crc_loop r (suc room) (r.data_length + 5 + k) ≡ (
      crc_digit r k ∷ (crc_loop r room (r.data_length + 5 + suc k)).0,
      (crc_loop r room (r.data_length + 5 + suc k)).1,
    )
unfolding crc_loop
crc_loop-suc r room zero ok lt = rw (position_is ok, next_is ok lt) (ground arith)
crc_loop-suc r room (suc zero) ok lt = rw (position_is ok, next_is ok lt) (ground arith)
crc_loop-suc r room (suc (suc zero)) ok lt = rw (position_is ok, next_is ok lt) (ground arith)
crc_loop-suc r room (suc (suc (suc zero))) ok lt = rw (position_is ok, next_is ok lt) (ground arith)
crc_loop-suc r room (suc (suc (suc (suc k)))) ok lt = absurd (omega arith)

-- Behind the checksum the loop stops.
crc_loop-stop :
    (r : Response) (room : ℕ)
    → Sendable r
    → crc_loop r room (r.data_length + 5 + 4) ≡ ([], r.data_length + 5 + 4)
unfolding crc_loop
crc_loop-stop r zero ok = refl
crc_loop-stop r (suc room) ok = rw (position_is ok) (ground arith)

pub crc_loop-zero : (r : Response) (sent : ℕ) → crc_loop r zero sent ≡ ([], sent)
unfolding crc_loop
crc_loop-zero r sent = refl

pub crc_loop_lem :
    (r : Response) (room k : ℕ)
    → Sendable r
    → k ≤ 4
    → crc_loop r room (r.data_length + 5 + k)
      ≡ (take room (drop k (big_endian32 r.crc)), r.data_length + 5 + k + min room (4 - k))
crc_loop_lem r zero k ok le =
    crc_loop-zero r (r.data_length + 5 + k) ∙ ap (λ t. ([], t)) (omega arith)
crc_loop_lem r (suc room) k ok le = elim (Bool-cases (ltb k 4)) [
  | inl more ↦
      let lt : k < 4 = ground (arith, more) in
      rw
        (
          crc_loop-suc r room k ok lt,
          crc_loop_lem r room (suc k) ok (omega (arith, lt)),
          drop-crc r k lt,
        )
        (ap (λ t. (crc_digit r k ∷ take room (drop (suc k) (big_endian32 r.crc)), t))
          (omega (arith, lt)))
  | inr done ↦
      let at_end : 4 ≡ k = ground (arith, done, le) in
      subst
        (λ k. crc_loop r (suc room) (r.data_length + 5 + k) ≡ (
          take (suc room) (drop k (big_endian32 r.crc)),
          r.data_length + 5 + k + min (suc room) (4 - k),
        ))
        at_end (crc_loop-stop r (suc room) ok ∙ ap (λ t. ([], t)) (omega arith))
]
