-- ===== src/Datalogging/Trigger.antt =====
-- The trigger conditions of lib/src/datalogging/scrutiny_datalogging_trigger.cpp.
pub mod Integers
pub mod Change
mod Tests
use scrutiny_embedded.Base.{
  ℕ, Bool, true, false, not, ◌&&◌, ◌||◌, ◌+◌, ◌-◌, ◌*◌, ◌/◌, ◌%◌, ◌^◌, ltb, leb, ◌==◌,
  if◌then◌else◌, u64, Option, none, some,
}

-- An operand in the widest type of its kind. A signed one is its pattern of 64 bits. `other` stands
-- for a tag that is none of the three.
pub data CompareValue {ℓ} (Float : Type ℓ) : Type ℓ where
  float : (f : Float) → CompareValue Float
  uint : (n : ℕ) → CompareValue Float
  sint : (pattern : ℕ) → CompareValue Float
  other : CompareValue Float

pub data RelationalOperator : Type 0 where
  equal not_equal less_than less_or_equal_than greater_than greater_or_equal_than :
      RelationalOperator

-- What the machine's `float` does: comparisons, conversions from 64 bit integers and to a signed one
-- (as a pattern), and the operations that the conditions use.
pub record FloatOps {ℓ} (Float : Type ℓ) : Type ℓ where
  pub equal_to : Float → Float → Bool
  pub less_than : Float → Float → Bool
  pub less_or_equal : Float → Float → Bool
  pub of_uint : ℕ → Float
  pub of_sint : ℕ → Float
  pub to_sint : Float → ℕ
  pub to_bits : Float → ℕ
  pub of_bits : ℕ → Float
  pub zero : Float
  pub add : Float → Float → Float
  pub subtract : Float → Float → Float
  pub abs : Float → Float

-- `apply_relational_op<T>`, from the three comparisons of `T`
unfoldable pub apply_relational_op {ℓ} :
    {T : Type ℓ}
    → (T → T → Bool)
    → (T → T → Bool)
    → (T → T → Bool)
    → RelationalOperator
    → T
    → T
    → Bool
apply_relational_op eq lt le RelationalOperator.equal a b = eq a b
apply_relational_op eq lt le RelationalOperator.not_equal a b = not (eq a b)
apply_relational_op eq lt le RelationalOperator.greater_than a b = lt b a
apply_relational_op eq lt le RelationalOperator.greater_or_equal_than a b = le b a
apply_relational_op eq lt le RelationalOperator.less_than a b = lt a b
apply_relational_op eq lt le RelationalOperator.less_or_equal_than a b = le a b

-- The order of patterns as signed numbers is that of the patterns with the sign turned over.
abbrev pub biased : ℕ → ℕ
biased pattern = (pattern + 2 ^ 63) % 2 ^ 64

unfoldable pub compare_uint : RelationalOperator → ℕ → ℕ → Bool
unfolding apply_relational_op
compare_uint op a b = apply_relational_op ◌==◌ ltb leb op a b

unfoldable pub compare_sint : RelationalOperator → ℕ → ℕ → Bool
unfolding apply_relational_op
compare_sint op a b =
    apply_relational_op (λ x y. x == y) (λ x y. ltb (biased x) (biased y))
      (λ x y. leb (biased x) (biased y)) op a b

-- UINT_2_INT_MAX
abbrev pub uint_2_int_max : ℕ
uint_2_int_max = 2 ^ 63 - 1

-- A cast to the signed type of a value that is cut at its greatest.
unfoldable pub clamp : ℕ → ℕ
clamp n = if ltb uint_2_int_max n then uint_2_int_max else n

-- `cmt` of `ConditionSharedData`: the previous operand as the bits that its union holds.
pub record ConditionData : Type 0 where
  pub initialized : Bool
  pub previous_val : ℕ

-- `ChangeMoreThanCondition::reset`
unfoldable pub reset_condition : ConditionData → ConditionData
reset_condition d = record { initialized = false; previous_val = 0 }

module _ {ℓ} {Float : Type ℓ} (floats : FloatOps Float) where
  unfoldable pub compare_float : RelationalOperator → Float → Float → Bool
  unfolding apply_relational_op
  compare_float op a b =
      apply_relational_op floats.equal_to floats.less_than floats.less_or_equal op a b

  unfoldable pub relational_compare :
      RelationalOperator → CompareValue Float → CompareValue Float → Bool
  relational_compare op (CompareValue.float a) (CompareValue.float b) = compare_float op a b
  relational_compare op (CompareValue.float a) (CompareValue.sint b) =
      compare_float op a (floats.of_sint b)
  relational_compare op (CompareValue.float a) (CompareValue.uint b) =
      compare_float op a (floats.of_uint b)
  relational_compare op (CompareValue.sint a) (CompareValue.float b) =
      compare_float op (floats.of_sint a) b
  relational_compare op (CompareValue.sint a) (CompareValue.sint b) = compare_sint op a b
  relational_compare op (CompareValue.sint a) (CompareValue.uint b) = compare_sint op a (clamp b)
  relational_compare op (CompareValue.uint a) (CompareValue.float b) =
      compare_float op (floats.of_uint a) b
  relational_compare op (CompareValue.uint a) (CompareValue.sint b) = compare_sint op (clamp a) b
  relational_compare op (CompareValue.uint a) (CompareValue.uint b) = compare_uint op a b
  relational_compare op _ _ = false

  -- The conditions' `evaluate` on a relational operator.
  unfoldable pub equal_condition : CompareValue Float → CompareValue Float → Bool
  equal_condition a b = relational_compare RelationalOperator.equal a b

  unfoldable pub not_equal_condition : CompareValue Float → CompareValue Float → Bool
  not_equal_condition a b = relational_compare RelationalOperator.not_equal a b

  unfoldable pub greater_than_condition : CompareValue Float → CompareValue Float → Bool
  greater_than_condition a b = relational_compare RelationalOperator.greater_than a b

  unfoldable pub greater_or_equal_than_condition : CompareValue Float → CompareValue Float → Bool
  greater_or_equal_than_condition a b =
      relational_compare RelationalOperator.greater_or_equal_than a b

  unfoldable pub less_than_condition : CompareValue Float → CompareValue Float → Bool
  less_than_condition a b = relational_compare RelationalOperator.less_than a b

  unfoldable pub less_or_equal_than_condition : CompareValue Float → CompareValue Float → Bool
  less_or_equal_than_condition a b = relational_compare RelationalOperator.less_or_equal_than a b

  -- An operand as a `float`.
  unfoldable pub as_float : CompareValue Float → Option Float
  as_float (CompareValue.float f) = some f
  as_float (CompareValue.uint n) = some (floats.of_uint n)
  as_float (CompareValue.sint p) = some (floats.of_sint p)
  as_float CompareValue.other = none

  unfoldable pub is_within_condition :
      CompareValue Float → CompareValue Float → CompareValue Float → Bool
  is_within_condition a b c = within (as_float a) (as_float b) (as_float c)
    where
      within : Option Float → Option Float → Option Float → Bool
      within (some x) (some y) (some z) =
          floats.less_or_equal (floats.abs (floats.subtract x y)) (floats.abs z)
      within _ _ _ = false

  unfoldable pub bits : CompareValue Float → ℕ
  bits (CompareValue.float f) = floats.to_bits f
  bits (CompareValue.uint n) = n
  bits (CompareValue.sint p) = p
  bits CompareValue.other = 0

  -- Whether an operand is beyond the previous one by more than `delta`. The signed sum wraps, which C++
  -- leaves undefined.
  unfoldable pub changed : ℕ → CompareValue Float → Float → Bool
  changed previous (CompareValue.uint n) delta =
      let bound = u64 (previous + floats.to_sint delta) in
      if floats.less_or_equal floats.zero delta then ltb bound n else ltb n bound
  changed previous (CompareValue.sint p) delta =
      let bound = u64 (previous + floats.to_sint delta) in
      if floats.less_or_equal floats.zero delta
      then ltb (biased bound) (biased p)
      else ltb (biased p) (biased bound)
  changed previous (CompareValue.float f) delta =
      let bound = floats.add (floats.of_bits previous) delta in
      if floats.less_or_equal floats.zero delta
      then floats.less_than bound f
      else floats.less_than f bound
  changed previous CompareValue.other delta = false

  unfoldable pub change_more_than_condition :
      ConditionData → CompareValue Float → CompareValue Float → ConditionData × Bool
  change_more_than_condition d a b = by_delta (as_float b)
    where
      by_delta : Option Float → ConditionData × Bool
      by_delta none = (d, false)
      by_delta (some delta) = (
        record { initialized = true; previous_val = bits a },
        d.initialized && changed d.previous_val a delta,
      )
