-- ===== src/Base/Bits.antt =====
-- `|` and `^` of C at variables: the step from a number to its half, from which the laws of the
-- children follow by induction on a bound.
pub mod Or
pub mod Xor
use Prim.Native.Nat.{
  ℕ, zero, suc, ◌+◌, ◌*◌, ◌/◌, ◌%◌, ◌≤◌, bit_or, bit_xor, digits, bitwise, differ, bit_or-bitwise,
  bit_xor-bitwise, max,
}
use mathlib.Core.Path.{◌≡◌, refl, ◌∙◌}
use native.Mathlib.Omega.{arith}

module _ (rest : ℕ → ℕ) (op : ℕ → ℕ → ℕ) where
  -- One round more than the number has digits changes nothing.
  spare_round : (n a b : ℕ) → a ≤ n → digits rest op (suc n) a b ≡ digits rest op n a b
  spare_round zero zero b h = refl
  spare_round zero (suc a) b h = absurd (omega arith)
  spare_round (suc n) zero b h = refl
  spare_round (suc n) (suc a) b h =
      let halves = spare_round n (suc a / 2) (b / 2) (omega arith) in omega (arith, halves)

  spare_rounds : (n m a b : ℕ) → a ≤ m → m ≤ n → digits rest op n a b ≡ digits rest op m a b
  spare_rounds zero zero a b h k = refl
  spare_rounds zero (suc m) a b h k = absurd (omega arith)
  spare_rounds (suc n) zero a b h k =
      spare_round n a b (omega arith) ∙ spare_rounds n zero a b h (omega arith)
  spare_rounds (suc n) (suc m) zero b h k = refl
  spare_rounds (suc n) (suc m) (suc a) b h k =
      omega (arith, spare_rounds n m (suc a / 2) (b / 2) (omega arith) (omega arith))

  halve :
      (a b : ℕ)
      → bitwise rest op (suc a) b ≡ bitwise rest op (suc a / 2) (b / 2) * 2 + op (suc a % 2) (b % 2)
  halve a b =
      omega (arith, spare_rounds a (suc a / 2) (suc a / 2) (b / 2) (omega arith) (omega arith))

pub bit_or-halve : (a b : ℕ) → bit_or a b ≡ bit_or (a / 2) (b / 2) * 2 + max (a % 2) (b % 2)
bit_or-halve zero b = simp bit_or-bitwise (omega arith)
bit_or-halve (suc a) b = simp bit_or-bitwise (halve (λ y. y) max a b)

pub bit_xor-halve : (a b : ℕ) → bit_xor a b ≡ bit_xor (a / 2) (b / 2) * 2 + differ (a % 2) (b % 2)
bit_xor-halve zero b = simp bit_xor-bitwise (omega arith)
bit_xor-halve (suc a) b = simp bit_xor-bitwise (halve (λ y. y) differ a b)
