-- ===== src/Datalogging/Trigger/Change.antt =====
-- ChangeMoreThan over successive evaluations.
use scrutiny_embedded.Base.{
  ℕ, Bool, true, false, List, [], ◌∷◌, ◌+◌, ◌^◌, ◌<◌, ◌≡◌, refl, arith, ltb,
}
use scrutiny_embedded.Datalogging.Trigger.{
  CompareValue, FloatOps, ConditionData, reset_condition, as_float, bits, changed,
  change_more_than_condition,
}

module _ {ℓ} {Float : Type ℓ} (floats : FloatOps Float) (delta : ℕ) where
  -- The operand's values at successive evaluations, and the result of the last one.
  unfoldable pub watch : ConditionData → ℕ → List ℕ → Bool
  watch d n [] =
      (change_more_than_condition floats d (CompareValue.uint n) (CompareValue.uint delta)).1
  watch d n (m ∷ ms) =
      watch (change_more_than_condition floats d (CompareValue.uint n) (CompareValue.uint delta)).0
        m ms

  -- Of the last two values, where there are two.
  unfoldable pub rises : ℕ → List ℕ → Bool
  rises n [] = false
  rises n (m ∷ []) = ltb (n + delta) m
  rises n (m ∷ m' ∷ ms) = rises m (m' ∷ ms)

  abbrev pub Words : List ℕ → Type 0
  Words [] = Unit {0}
  Words (n ∷ ns) = (n + delta < 2 ^ 64) × Words ns

  watch_from :
      (d : ConditionData) (n : ℕ) (ms : List ℕ)
      → floats.to_sint (floats.of_uint delta) ≡ delta
      → floats.less_or_equal floats.zero (floats.of_uint delta) ≡ true
      → Words (n ∷ ms)
      → d.initialized ≡ true
      → d.previous_val + delta < 2 ^ 64
      → watch d n ms ≡ rises d.previous_val (n ∷ ms)
  unfolding watch rises change_more_than_condition as_float bits changed
  watch_from d n [] exact pos w i k = ground (arith, exact, pos, i, k)
  watch_from d n (m ∷ ms) exact pos w i k =
      watch_from (record { initialized = true; previous_val = n }) m ms exact pos w.1 refl w.0

  -- After a reset, with an unsigned operand and an unsigned delta that the conversion to a float and
  -- back keeps and that the float comparison finds to be at least 0: however often the condition is
  -- evaluated, where no value plus the delta exceeds 64 bits, the last result is true exactly when
  -- there is a value before the last, and the last one is above it by more than the delta.
  pub watch-reset_condition :
      (d : ConditionData) (n : ℕ) (ms : List ℕ)
      → floats.to_sint (floats.of_uint delta) ≡ delta
      → floats.less_or_equal floats.zero (floats.of_uint delta) ≡ true
      → Words (n ∷ ms)
      → watch (reset_condition d) n ms ≡ rises n ms
  unfolding watch rises change_more_than_condition as_float bits reset_condition
  watch-reset_condition d n [] exact pos w = refl
  watch-reset_condition d n (m ∷ ms) exact pos w =
      watch_from (record { initialized = true; previous_val = n }) m ms exact pos w.1 refl w.0
