-- ===== src/Datalogging/Trigger/Integers.antt =====
-- The comparison of integers of different signedness.
use scrutiny_embedded.Base.{
  ℕ, true, ◌+◌, ◌-◌, ◌^◌, ◌<◌, ◌≤◌, ◌≡◌, ◌⊎◌, ◌↔◌, ◌∙◌, sym, ap, ap₂, arith, ◌≢◌, ltb,
  if◌then◌else◌,
}
use scrutiny_embedded.Datalogging.Trigger.{
  CompareValue, RelationalOperator, FloatOps, apply_relational_op, biased, compare_uint,
  compare_sint, clamp, relational_compare,
}

-- An integer operand of 64 bits, and its value above -2 ^ 63.
pub data Integer : Type 0 where
  unsigned : (n : ℕ) → n < 2 ^ 64 → Integer
  signed : (pattern : ℕ) → pattern < 2 ^ 64 → Integer

abbrev pub operand {ℓ} : {Float : Type ℓ} → Integer → CompareValue Float
operand (Integer.unsigned n w) = CompareValue.uint n
operand (Integer.signed p w) = CompareValue.sint p

abbrev pub value : Integer → ℕ
value (Integer.unsigned n w) = n + 2 ^ 63
value (Integer.signed p w) = if ltb p (2 ^ 63) then p + 2 ^ 63 else p - 2 ^ 63

-- What each operator asks of two values.
abbrev pub Holds : RelationalOperator → ℕ → ℕ → Type 0
Holds RelationalOperator.equal a b = a ≡ b
Holds RelationalOperator.not_equal a b = a ≢ b
Holds RelationalOperator.less_than a b = a < b
Holds RelationalOperator.less_or_equal_than a b = a ≤ b
Holds RelationalOperator.greater_than a b = b < a
Holds RelationalOperator.greater_or_equal_than a b = b ≤ a

Holds-compare_uint :
    (op : RelationalOperator) (a b : ℕ) → (compare_uint op a b ≡ true) ↔ Holds op a b
unfolding compare_uint apply_relational_op
Holds-compare_uint RelationalOperator.equal a b = (λ e. ground (arith, e), λ h. ground (arith, h))
Holds-compare_uint RelationalOperator.not_equal a b =
    (λ e h. ground (arith, e, h), λ h. ground (arith, h))
Holds-compare_uint RelationalOperator.less_than a b =
    (λ e. ground (arith, e), λ h. ground (arith, h))
Holds-compare_uint RelationalOperator.less_or_equal_than a b =
    (λ e. ground (arith, e), λ h. ground (arith, h))
Holds-compare_uint RelationalOperator.greater_than a b =
    (λ e. ground (arith, e), λ h. ground (arith, h))
Holds-compare_uint RelationalOperator.greater_or_equal_than a b =
    (λ e. ground (arith, e), λ h. ground (arith, h))

biased-value : (p : ℕ) (w : p < 2 ^ 64) → biased p ≡ value (Integer.signed p w)
biased-value p w = ground (arith, w)

-- The code cuts an unsigned number at the greatest signed one before it compares them, which only shows
-- against that signed number itself.
abbrev pub Comparable : Integer → Integer → Type 0
Comparable (Integer.unsigned n w) (Integer.signed p v) = (n < 2 ^ 63) ⊎ (p ≢ 2 ^ 63 - 1)
Comparable (Integer.signed p v) (Integer.unsigned n w) = (n < 2 ^ 63) ⊎ (p ≢ 2 ^ 63 - 1)
Comparable _ _ = Unit {0}

module _ {ℓ} {Float : Type ℓ} (floats : FloatOps Float) where
  unsigned_unsigned :
      (op : RelationalOperator) (n m : ℕ)
      → n < 2 ^ 64
      → m < 2 ^ 64
      → relational_compare floats op (CompareValue.uint n) (CompareValue.uint m)
        ≡ compare_uint op (n + 2 ^ 63) (m + 2 ^ 63)
  unfolding relational_compare compare_uint compare_sint apply_relational_op clamp
  unsigned_unsigned RelationalOperator.equal n m w v = ground (arith, w, v)
  unsigned_unsigned RelationalOperator.not_equal n m w v = ground (arith, w, v)
  unsigned_unsigned RelationalOperator.less_than n m w v = ground (arith, w, v)
  unsigned_unsigned RelationalOperator.less_or_equal_than n m w v = ground (arith, w, v)
  unsigned_unsigned RelationalOperator.greater_than n m w v = ground (arith, w, v)
  unsigned_unsigned RelationalOperator.greater_or_equal_than n m w v = ground (arith, w, v)

  signed_signed :
      (op : RelationalOperator) (n m : ℕ)
      → n < 2 ^ 64
      → m < 2 ^ 64
      → relational_compare floats op (CompareValue.sint n) (CompareValue.sint m)
        ≡ compare_uint op (biased n) (biased m)
  unfolding relational_compare compare_uint compare_sint apply_relational_op clamp
  signed_signed RelationalOperator.equal n m w v = ground (arith, w, v)
  signed_signed RelationalOperator.not_equal n m w v = ground (arith, w, v)
  signed_signed RelationalOperator.less_than n m w v = ground (arith, w, v)
  signed_signed RelationalOperator.less_or_equal_than n m w v = ground (arith, w, v)
  signed_signed RelationalOperator.greater_than n m w v = ground (arith, w, v)
  signed_signed RelationalOperator.greater_or_equal_than n m w v = ground (arith, w, v)

  unsigned_signed :
      (op : RelationalOperator) (n m : ℕ)
      → n < 2 ^ 64
      → m < 2 ^ 64
      → ((n < 2 ^ 63) ⊎ (m ≢ 2 ^ 63 - 1))
      → relational_compare floats op (CompareValue.uint n) (CompareValue.sint m)
        ≡ compare_uint op (n + 2 ^ 63) (biased m)
  unfolding relational_compare compare_uint compare_sint apply_relational_op clamp
  unsigned_signed RelationalOperator.equal n m w v c = ground (arith, w, v, c)
  unsigned_signed RelationalOperator.not_equal n m w v c = ground (arith, w, v, c)
  unsigned_signed RelationalOperator.less_than n m w v c = ground (arith, w, v, c)
  unsigned_signed RelationalOperator.less_or_equal_than n m w v c = ground (arith, w, v, c)
  unsigned_signed RelationalOperator.greater_than n m w v c = ground (arith, w, v, c)
  unsigned_signed RelationalOperator.greater_or_equal_than n m w v c = ground (arith, w, v, c)

  signed_unsigned :
      (op : RelationalOperator) (n m : ℕ)
      → n < 2 ^ 64
      → m < 2 ^ 64
      → ((m < 2 ^ 63) ⊎ (n ≢ 2 ^ 63 - 1))
      → relational_compare floats op (CompareValue.sint n) (CompareValue.uint m)
        ≡ compare_uint op (biased n) (m + 2 ^ 63)
  unfolding relational_compare compare_uint compare_sint apply_relational_op clamp
  signed_unsigned RelationalOperator.equal n m w v c = ground (arith, w, v, c)
  signed_unsigned RelationalOperator.not_equal n m w v c = ground (arith, w, v, c)
  signed_unsigned RelationalOperator.less_than n m w v c = ground (arith, w, v, c)
  signed_unsigned RelationalOperator.less_or_equal_than n m w v c = ground (arith, w, v, c)
  signed_unsigned RelationalOperator.greater_than n m w v c = ground (arith, w, v, c)
  signed_unsigned RelationalOperator.greater_or_equal_than n m w v c = ground (arith, w, v, c)

  compare_values :
      (op : RelationalOperator) (x y : Integer)
      → Comparable x y
      → relational_compare floats op (operand x) (operand y) ≡ compare_uint op (value x) (value y)
  compare_values op (Integer.unsigned n w) (Integer.unsigned m v) c = unsigned_unsigned op n m w v
  compare_values op (Integer.unsigned n w) (Integer.signed m v) c =
      unsigned_signed op n m w v c ∙ ap (λ b. compare_uint op (n + 2 ^ 63) b) (biased-value m v)
  compare_values op (Integer.signed n w) (Integer.unsigned m v) c =
      signed_unsigned op n m w v c ∙ ap (λ a. compare_uint op a (m + 2 ^ 63)) (biased-value n w)
  compare_values op (Integer.signed n w) (Integer.signed m v) c =
      signed_signed op n m w v
      ∙ ap₂ (λ a b. compare_uint op a b) (biased-value n w) (biased-value m v)

  -- Two integer operands of 64 bits, signed or unsigned, of which not one is an unsigned number of at
  -- least 2 ^ 63 while the other is the greatest signed number: the comparison by each of the six
  -- operators is true exactly when their values are equal, unequal, less, at most, greater or at
  -- least, whatever the floats are.
  pub relational_compare_lem :
      (op : RelationalOperator) (x y : Integer)
      → Comparable x y
      → (relational_compare floats op (operand x) (operand y) ≡ true) ↔ Holds op (value x) (value y)
  relational_compare_lem op x y c =
      let e = compare_values op x y c in
      let h = Holds-compare_uint op (value x) (value y) in (λ r. h.0 (sym e ∙ r), λ v. e ∙ h.1 v)
