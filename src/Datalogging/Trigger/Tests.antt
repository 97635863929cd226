-- ===== src/Datalogging/Trigger/Tests.antt =====
-- Conditions on concrete operands, where the floats are whole numbers from 0 on.
use scrutiny_embedded.Base.{
  ◌↔◌, ◌^◌, ◌<◌, ℕ, true, [], ◌∷◌, ◌+◌, ◌-◌, ◌≡◌, inl, refl, arith, ltb, leb, ◌==◌, max, min,
}
use scrutiny_embedded.Datalogging.Trigger.{
  CompareValue, RelationalOperator, FloatOps, reset_condition, relational_compare,
}
use scrutiny_embedded.Datalogging.Trigger.Integers.{Integer, relational_compare_lem}
use scrutiny_embedded.Datalogging.Trigger.Change.{watch, rises, watch-reset_condition}

abbrev whole : FloatOps ℕ
whole = record {
  equal_to = λ a b. a == b;
  less_than = ltb;
  less_or_equal = leb;
  of_uint = λ n. n;
  of_sint = λ p. p;
  to_sint = λ f. f;
  to_bits = λ f. f;
  of_bits = λ n. n;
  zero = 0;
  add = λ a b. a + b;
  subtract = λ a b. max a b - min a b;
  abs = λ a. a;
}

-- -1 is less than 5.
relational_compare_lem_example :
    (relational_compare whole RelationalOperator.less_than
        (CompareValue.sint 18446744073709551615)
        (CompareValue.uint 5)
      ≡ true)
    ↔ (2 ^ 63 - 1 < 5 + 2 ^ 63)
relational_compare_lem_example =
    relational_compare_lem whole RelationalOperator.less_than
      (Integer.signed 18446744073709551615 (omega arith)) (Integer.unsigned 5 (omega arith))
      (inl (omega arith))

watch-reset_condition_example :
    watch whole 3
      (reset_condition (record { initialized = true; previous_val = 9 }))
      10
      (12 ∷ 16 ∷ [])
    ≡ true
unfolding rises
watch-reset_condition_example =
    watch-reset_condition whole 3 (record { initialized = true; previous_val = 9 }) 10
      (12 ∷ 16 ∷ []) refl refl (omega arith)
