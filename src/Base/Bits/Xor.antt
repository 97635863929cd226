-- ===== src/Base/Bits/Xor.antt =====
-- `^` is associative and commutative, keeps a bound 2 ^ k, and goes through shifts.
use Prim.Native.Nat.{
  ℕ, zero, suc, ◌+◌, ◌*◌, ◌/◌, ◌%◌, ◌^◌, ◌≤◌, ◌<◌, bit_xor, bit_xor-bitwise, differ,
}
use mathlib.Core.Path.{◌≡◌, refl, ap, ◌∙◌}
use native.Mathlib.Nat.{pow-suc}
use native.Mathlib.Omega.{arith}
use scrutiny_embedded.Base.Bits.{bit_xor-halve}

differ_as_sum : (a b : ℕ) → a < 2 → b < 2 → differ a b ≡ (a + b) % 2
differ_as_sum zero b h k = omega arith
differ_as_sum (suc zero) zero h k = refl
differ_as_sum (suc zero) (suc zero) h k = refl
differ_as_sum (suc zero) (suc (suc b)) h k = absurd (omega arith)
differ_as_sum (suc (suc a)) b h k = absurd (omega arith)

digit_sum : (a b : ℕ) → differ (a % 2) (b % 2) ≡ (a + b) % 2
digit_sum a b = omega (arith, differ_as_sum (a % 2) (b % 2) (omega arith) (omega arith))

pub bit_xor-half : (a b : ℕ) → bit_xor a b / 2 ≡ bit_xor (a / 2) (b / 2)
bit_xor-half a b = omega (arith, bit_xor-halve a b, digit_sum a b)

pub bit_xor-parity : (a b : ℕ) → bit_xor a b % 2 ≡ (a + b) % 2
bit_xor-parity a b = omega (arith, bit_xor-halve a b, digit_sum a b)

-- Two numbers are equal if their halves and their lowest digits are.
eq_of_halves : (a b : ℕ) → a / 2 ≡ b / 2 → a % 2 ≡ b % 2 → a ≡ b
eq_of_halves a b h k = omega arith

xor_comm_upto : (n a b : ℕ) → a ≤ n → b ≤ n → bit_xor a b ≡ bit_xor b a
xor_comm_upto zero zero zero h k = refl
xor_comm_upto zero zero (suc b) h k = absurd (omega arith)
xor_comm_upto zero (suc a) b h k = absurd (omega arith)
xor_comm_upto (suc n) a b h k = omega (
  arith,
  bit_xor-half a b,
  bit_xor-half b a,
  bit_xor-parity a b,
  bit_xor-parity b a,
  xor_comm_upto n (a / 2) (b / 2) (omega arith) (omega arith),
)

pub bit_xor_comm : (a b : ℕ) → bit_xor a b ≡ bit_xor b a
bit_xor_comm a b = xor_comm_upto (a + b) a b (omega arith) (omega arith)

pub bit_xor-lt : (k a b : ℕ) → a < 2 ^ k → b < 2 ^ k → bit_xor a b < 2 ^ k
bit_xor-lt zero zero zero h l = omega arith
bit_xor-lt zero zero (suc b) h l = absurd (omega arith)
bit_xor-lt zero (suc a) b h l = absurd (omega arith)
bit_xor-lt (suc k) a b h l =
    let doubled : 2 ^ suc k ≡ 2 ^ k * 2 = pow-suc 2 k in
    omega
      (arith, doubled, bit_xor-half a b, bit_xor-lt k (a / 2) (b / 2) (omega arith) (omega arith))

xor_assoc_upto :
    (n a b c : ℕ) → a ≤ n → b ≤ n → c ≤ n → bit_xor (bit_xor a b) c ≡ bit_xor a (bit_xor b c)
xor_assoc_upto zero zero zero zero h k l = refl
xor_assoc_upto zero zero zero (suc c) h k l = absurd (omega arith)
xor_assoc_upto zero zero (suc b) c h k l = absurd (omega arith)
xor_assoc_upto zero (suc a) b c h k l = absurd (omega arith)
xor_assoc_upto (suc n) a b c h k l =
    eq_of_halves (bit_xor (bit_xor a b) c) (bit_xor a (bit_xor b c))
      (rw
        (
          bit_xor-half (bit_xor a b) c,
          bit_xor-half a b,
          bit_xor-half a (bit_xor b c),
          bit_xor-half b c,
        )
        (xor_assoc_upto n (a / 2) (b / 2) (c / 2) (omega arith) (omega arith) (omega arith)))
      (omega (
        arith,
        bit_xor-parity (bit_xor a b) c,
        bit_xor-parity a b,
        bit_xor-parity a (bit_xor b c),
        bit_xor-parity b c,
      ))

pub bit_xor_assoc : (a b c : ℕ) → bit_xor (bit_xor a b) c ≡ bit_xor a (bit_xor b c)
bit_xor_assoc a b c = xor_assoc_upto (a + b + c) a b c (omega arith) (omega arith) (omega arith)

pub zero-bit_xor : (a : ℕ) → bit_xor 0 a ≡ a
zero-bit_xor a = bit_xor-bitwise 0 a

pub bit_xor-zero : (a : ℕ) → bit_xor a 0 ≡ a
bit_xor-zero a = bit_xor_comm a 0 ∙ zero-bit_xor a

-- `^` of a shifted field and a field that fits below it is their sum.
pub bit_xor-shift : (k high low : ℕ) → low < 2 ^ k → bit_xor (high * 2 ^ k) low ≡ high * 2 ^ k + low
bit_xor-shift zero high low h = ground (arith, bit_xor-zero high)
bit_xor-shift (suc k) high low h =
    let doubled : high * 2 ^ suc k ≡ 2 * (high * 2 ^ k) =
      omega (arith, ap (λ (t : ℕ). high * t) (pow-suc 2 k)) in
    ground (
      arith,
      doubled,
      bit_xor-halve (high * 2 ^ suc k) low,
      digit_sum (high * 2 ^ suc k) low,
      bit_xor-shift k high (low / 2) (omega arith),
    )
