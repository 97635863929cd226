-- ===== src/Base/Bits/Or.antt =====
-- `|` of a shifted field and a field that fits below it is their sum.
use Prim.Native.Nat.{ℕ, zero, suc, ◌+◌, ◌*◌, ◌/◌, ◌%◌, ◌^◌, ◌≤◌, ◌<◌, bit_or}
use mathlib.Core.Path.{◌≡◌, refl, sym, ap, ◌∙◌}
use native.Mathlib.Nat.{pow-suc, mul_assoc, add-mul, mul-lt-mul_of_pos_right}
use native.Mathlib.Omega.{arith}
use scrutiny_embedded.Base.Bits.{bit_or-halve}

or-zero_upto : (n a : ℕ) → a ≤ n → bit_or a 0 ≡ a
or-zero_upto zero zero h = refl
or-zero_upto zero (suc a) h = absurd (omega arith)
or-zero_upto (suc n) zero h = refl
or-zero_upto (suc n) (suc a) h =
    omega (arith, bit_or-halve (suc a) 0, or-zero_upto n (suc a / 2) (omega arith))

pub bit_or-zero : (a : ℕ) → bit_or a 0 ≡ a
bit_or-zero a = or-zero_upto a a (omega arith)

-- `low` has at most `k` digits.
pub bit_or-shift : (k high low : ℕ) → low < 2 ^ k → bit_or (high * 2 ^ k) low ≡ high * 2 ^ k + low
bit_or-shift zero high low h = ground (arith, bit_or-zero high)
bit_or-shift (suc k) high low h =
    let doubled : high * 2 ^ suc k ≡ 2 * (high * 2 ^ k) =
      omega (arith, ap (λ (t : ℕ). high * t) (pow-suc 2 k)) in
    ground (
      arith,
      doubled,
      bit_or-halve (high * 2 ^ suc k) low,
      bit_or-shift k high (low / 2) (omega arith),
    )

pow_add_8 : (k : ℕ) → 2 ^ (k + 8) ≡ 2 ^ 8 * 2 ^ k
pow_add_8 zero = refl
pow_add_8 (suc k) =
    let next : 2 ^ (suc k + 8) ≡ 2 ^ (k + 8) * 2 =
      ap (λ t. 2 ^ t) (omega arith) ∙ pow-suc 2 (k + 8) in
    omega (arith, next, pow_add_8 k, pow-suc 2 k)

pow_pos : (k : ℕ) → 0 < 2 ^ k
pow_pos zero = omega arith
pow_pos (suc k) = omega (arith, pow-suc 2 k, pow_pos k)

byte-lt : (k x : ℕ) → x % 2 ^ 8 * 2 ^ k < 2 ^ (k + 8)
byte-lt k x = omega (
  arith,
  pow_add_8 k,
  mul-lt-mul_of_pos_right {m = x % 2 ^ 8} {n = 2 ^ 8} {k = 2 ^ k} (omega arith) (pow_pos k),
)

-- A byte goes below a number that has been shifted past it.
pub bit_or-byte :
    (k v x : ℕ) → bit_or (v * 2 ^ (k + 8)) (x % 2 ^ 8 * 2 ^ k) ≡ (v * 2 ^ 8 + x % 2 ^ 8) * 2 ^ k
bit_or-byte k v x =
    let shifted : v * 2 ^ (k + 8) ≡ v * 2 ^ 8 * 2 ^ k =
      ap (λ (t : ℕ). v * t) (pow_add_8 k) ∙ sym (mul_assoc v (2 ^ 8) (2 ^ k)) in
    bit_or-shift (k + 8) v (x % 2 ^ 8 * 2 ^ k) (byte-lt k x)
    ∙ ap (λ (t : ℕ). t + x % 2 ^ 8 * 2 ^ k) shifted
    ∙ sym (add-mul (v * 2 ^ 8) (x % 2 ^ 8) (2 ^ k))

-- The first byte.
pub bit_or-first : (k x : ℕ) → bit_or 0 (x % 2 ^ 8 * 2 ^ k) ≡ x % 2 ^ 8 * 2 ^ k
bit_or-first k x =
    let none : 0 * 2 ^ (k + 8) ≡ 0 = omega arith in
    ap (λ (t : ℕ). bit_or t (x % 2 ^ 8 * 2 ^ k)) (sym none)
    ∙ bit_or-shift (k + 8) 0 (x % 2 ^ 8 * 2 ^ k) (byte-lt k x)
    ∙ ap (λ (t : ℕ). t + x % 2 ^ 8 * 2 ^ k) none
    ∙ omega arith
