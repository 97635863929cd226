-- ===== src/Tools/Crc/Bitwise.antt =====
-- The table of `crc32` against the definition of CRC-32 by one bit at a time, with the reflected
-- polynomial 0xEDB88320.
use scrutiny_embedded.Base.{
  ℕ, List, [], ◌∷◌, ◌≡◌, refl, sym, ap, ap₂, ◌∙◌, ◌<◌, ◌/◌, ◌%◌, ◌*◌, bit_xor, arith, complement32,
  low_bits, ◌>>>◌, zero, suc, Bool, true, ◌==◌, if◌then◌else◌, ◌&&◌, ==_iff,
}
use scrutiny_embedded.Base.Bits.Xor.{
  bit_xor-half, bit_xor-parity, bit_xor_comm, bit_xor_assoc, bit_xor-shift, zero-bit_xor,
  bit_xor-zero,
}
use scrutiny_embedded.Tools.Crc.{lookup_table, crc_byte, crc_loop, crc32}

abbrev pub polynomial : ℕ
polynomial = 0xEDB88320

-- One step of the division: the lowest bit leaves the register, and selects the polynomial.
pub divide_bit : ℕ → ℕ
divide_bit r = if r % 2 == 1 then bit_xor (r / 2) polynomial else r / 2

pub divide_bits : ℕ → ℕ → ℕ
divide_bits zero r = r
divide_bits (suc n) r = divide_bits n (divide_bit r)

-- The byte enters at the low end, and eight bits are divided out.
pub divide_bytes : ℕ → List ℕ → ℕ
divide_bytes r [] = r
divide_bytes r (b ∷ bs) = divide_bytes (divide_bits 8 (bit_xor r (low_bits b 8))) bs

pub reference_crc32 : List ℕ → ℕ → ℕ
reference_crc32 bytes start = complement32 (divide_bytes (complement32 start) bytes)

-- The steps are linear.
select : ℕ → ℕ
select r = if r % 2 == 1 then polynomial else 0

divide_bit_as_xor : (r : ℕ) → divide_bit r ≡ bit_xor (r / 2) (select r)
unfolding divide_bit select
divide_bit_as_xor r = ground (arith, bit_xor-zero (r / 2))

cancel : bit_xor polynomial polynomial ≡ 0
cancel = refl

select-xor : (a b : ℕ) → select (bit_xor a b) ≡ bit_xor (select a) (select b)
unfolding select
select-xor a b = ground (
  arith,
  bit_xor-parity a b,
  cancel,
  bit_xor-zero polynomial,
  zero-bit_xor polynomial,
  zero-bit_xor 0,
)

xor_swap : (a b c d : ℕ) → bit_xor (bit_xor a b) (bit_xor c d) ≡ bit_xor (bit_xor a c) (bit_xor b d)
xor_swap a b c d = cc (
  bit_xor_assoc a b (bit_xor c d),
  sym (bit_xor_assoc b c d),
  bit_xor_comm b c,
  bit_xor_assoc c b d,
  sym (bit_xor_assoc a c (bit_xor b d)),
)

divide_bit-xor : (a b : ℕ) → divide_bit (bit_xor a b) ≡ bit_xor (divide_bit a) (divide_bit b)
divide_bit-xor a b = cc (
  divide_bit_as_xor (bit_xor a b),
  divide_bit_as_xor a,
  divide_bit_as_xor b,
  bit_xor-half a b,
  select-xor a b,
  xor_swap (a / 2) (b / 2) (select a) (select b),
)

divide_bits-xor :
    (n a b : ℕ) → divide_bits n (bit_xor a b) ≡ bit_xor (divide_bits n a) (divide_bits n b)
unfolding divide_bits
divide_bits-xor zero a b = refl
divide_bits-xor (suc n) a b =
    rw (divide_bit-xor a b) (divide_bits-xor n (divide_bit a) (divide_bit b))

divide_bit-even : (h : ℕ) → divide_bit (h * 2) ≡ h
unfolding divide_bit
divide_bit-even h = ground arith

-- Four zero bits leave the register as a shift.
divide_bits-shifted : (h : ℕ) → divide_bits 4 (h * 16) ≡ h
unfolding divide_bits
divide_bits-shifted h =
    ap (λ t. divide_bit (divide_bit (divide_bit (divide_bit t)))) (omega arith)
    ∙ ap (λ t. divide_bit (divide_bit (divide_bit t))) (divide_bit-even (h * 2 * 2 * 2))
    ∙ ap (λ t. divide_bit (divide_bit t)) (divide_bit-even (h * 2 * 2))
    ∙ ap divide_bit (divide_bit-even (h * 2))
    ∙ divide_bit-even h

holds_below : (ℕ → Bool) → ℕ → Bool
holds_below test zero = true
holds_below test (suc m) = test m && holds_below test m

holds_below_sound : (test : ℕ → Bool) (n m : ℕ) → holds_below test n ≡ true → m < n → test m ≡ true
unfolding holds_below
holds_below_sound test zero m h lt = absurd (omega arith)
holds_below_sound test (suc n) m h lt = ground (arith, holds_below_sound test n m)

agrees : ℕ → Bool
agrees m = divide_bits 4 m == lookup_table m

agrees_everywhere : holds_below agrees 16 ≡ true
unfolding holds_below agrees divide_bits divide_bit lookup_table
agrees_everywhere = refl

-- The sixteen entries of the table are four steps of the division each.
table_lem : (m : ℕ) → m < 16 → divide_bits 4 m ≡ lookup_table m
unfolding agrees
table_lem m h = (==_iff _ _).0 (holds_below_sound agrees 16 m agrees_everywhere h)

-- Four steps at once, by one look into the table.
nibble : (r : ℕ) → divide_bits 4 r ≡ bit_xor (lookup_table (low_bits r 4)) (r >>> 4)
nibble r =
    let split : bit_xor (r / 16 * 16) (r % 16) ≡ r =
      omega (arith, bit_xor-shift 4 (r / 16) (r % 16) (omega arith)) in
    cc (
      sym split,
      divide_bits-xor 4 (r / 16 * 16) (r % 16),
      divide_bits-shifted (r / 16),
      table_lem (r % 16) (omega arith),
      bit_xor_comm (r / 16) (lookup_table (r % 16)),
    )

xor_sixteenth : (a b : ℕ) → bit_xor a b / 16 ≡ bit_xor (a / 16) (b / 16)
xor_sixteenth a b =
    let left : a / 2 / 2 / 2 / 2 ≡ a / 16 = omega arith in
    let right : b / 2 / 2 / 2 / 2 ≡ b / 16 = omega arith in
    omega (
      arith,
      bit_xor-half a b,
      bit_xor-half (a / 2) (b / 2),
      bit_xor-half (a / 2 / 2) (b / 2 / 2),
      bit_xor-half (a / 2 / 2 / 2) (b / 2 / 2 / 2),
      ap₂ bit_xor left right,
    )

divide_bits-add : (r : ℕ) → divide_bits 8 r ≡ divide_bits 4 (divide_bits 4 r)
unfolding divide_bits
divide_bits-add r = refl

crc_byte_lem : (r b : ℕ) → crc_byte r b ≡ divide_bits 8 (bit_xor r (low_bits b 8))
unfolding crc_byte
crc_byte_lem r b =
    let low : ℕ = bit_xor r (b % 256) in
    let high : ℕ = b % 256 / 16 in
    let first : ℕ = bit_xor (lookup_table (low % 16)) (r / 16) in
    let spent : high / 16 ≡ 0 = omega arith in
    cc (
      divide_bits-add low,
      nibble low,
      xor_sixteenth r (b % 256),
      bit_xor_assoc (lookup_table (low % 16)) (r / 16) high,
      nibble (bit_xor first high),
      xor_sixteenth first high,
      spent,
      bit_xor-zero (first / 16),
    )

crc_loop_lem : (bs : List ℕ) (r : ℕ) → crc_loop r bs ≡ divide_bytes r bs
unfolding crc_loop divide_bytes
crc_loop_lem [] r = refl
crc_loop_lem (b ∷ bs) r = rw (← crc_byte_lem r b) (crc_loop_lem bs (crc_byte r b))

-- `crc32` is the CRC-32 of one bit at a time, for every start value.
pub crc32_lem : (bs : List ℕ) (start : ℕ) → crc32 bs start ≡ reference_crc32 bs start
unfolding crc32 reference_crc32
crc32_lem bs start = rw (crc_loop_lem bs (complement32 start))
