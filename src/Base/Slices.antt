-- ===== src/Base/Slices.antt =====
-- Slices of a list: `take n (drop k l)` is what a copy of `n` bytes from index `k` reads.
use Prim.Native.Nat.{ℕ, zero, suc, ◌+◌, ◌-◌, ◌≤◌, min}
use mathlib.Core.Path.{◌≡◌, refl, ap, sym, ◌∙◌}
use mathlib.Core.List.{List, [], ◌∷◌, ◌++◌}
use native.Mathlib.Omega.{arith}
use scrutiny_embedded.Base.Lists.{length, take, drop, length-drop}

module _ {ℓ} {A : Type ℓ} where
  pub take_nil : (n : ℕ) → take {A = A} n [] ≡ []
  take_nil zero = refl
  take_nil (suc n) = refl

  pub drop_nil : (n : ℕ) → drop {A = A} n [] ≡ []
  drop_nil zero = refl
  drop_nil (suc n) = refl

  -- Two lengths that are equal by arithmetic.
  pub take_congr : (n m : ℕ) (xs : List A) → n ≡ m → take n xs ≡ take m xs
  take_congr n m xs e = ap (λ t. take t xs) e

  pub drop_congr : (n m : ℕ) (xs : List A) → n ≡ m → drop n xs ≡ drop m xs
  drop_congr n m xs e = ap (λ t. drop t xs) e

module _ {ℓ} {A : Type ℓ} where
  pub take-take : (n m : ℕ) (xs : List A) → take n (take m xs) ≡ take (min n m) xs
  take-take zero m xs = take_congr 0 (min 0 m) xs (omega arith)
  take-take (suc n) zero xs = take_congr 0 (min (suc n) 0) xs (omega arith)
  take-take (suc n) (suc m) [] = sym (take_nil (min (suc n) (suc m)))
  take-take (suc n) (suc m) (x ∷ xs) =
      ap (λ t. x ∷ t) (take-take n m xs)
      ∙ take_congr (suc (min n m)) (min (suc n) (suc m)) (x ∷ xs) (omega arith)

  pub drop-take : (k m : ℕ) (xs : List A) → drop k (take m xs) ≡ take (m - k) (drop k xs)
  drop-take zero m xs = take_congr m (m - 0) xs (omega arith)
  drop-take (suc k) zero xs = take_congr 0 (0 - suc k) (drop (suc k) xs) (omega arith)
  drop-take (suc k) (suc m) [] = sym (take_nil (suc m - suc k))
  drop-take (suc k) (suc m) (x ∷ xs) =
      drop-take k m xs ∙ take_congr (m - k) (suc m - suc k) (drop k xs) (omega arith)

  pub take_all : (n : ℕ) (xs : List A) → length xs ≤ n → take n xs ≡ xs
  take_all zero [] h = refl
  take_all zero (x ∷ xs) h = absurd (omega arith)
  take_all (suc n) [] h = refl
  take_all (suc n) (x ∷ xs) h = ap (λ t. x ∷ t) (take_all n xs (omega arith))

  pub drop_all : (n : ℕ) (xs : List A) → length xs ≤ n → drop n xs ≡ []
  drop_all zero [] h = refl
  drop_all zero (x ∷ xs) h = absurd (omega arith)
  drop_all (suc n) [] h = refl
  drop_all (suc n) (x ∷ xs) h = drop_all n xs (omega arith)

  pub drop-append :
      (k : ℕ) (xs ys : List A) → drop k (xs ++ ys) ≡ drop k xs ++ drop (k - length xs) ys
  drop-append zero xs ys = ap (λ t. xs ++ t) (drop_congr 0 (0 - length xs) ys (omega arith))
  drop-append (suc k) [] ys = drop_congr (suc k) (suc k - 0) ys (omega arith)
  drop-append (suc k) (x ∷ xs) ys =
      drop-append k xs ys
      ∙ ap (λ t. drop k xs ++ t)
          (drop_congr (k - length xs) (suc k - suc (length xs)) ys (omega arith))

  pub take-append :
      (n : ℕ) (xs ys : List A) → take n (xs ++ ys) ≡ take n xs ++ take (n - length xs) ys
  take-append zero xs ys = take_congr 0 (0 - length xs) ys (omega arith)
  take-append (suc n) [] ys = take_congr (suc n) (suc n - 0) ys (omega arith)
  take-append (suc n) (x ∷ xs) ys =
      ap (λ t. x ∷ t)
        (take-append n xs ys
          ∙ ap (λ t. take n xs ++ t)
              (take_congr (n - length xs) (suc n - suc (length xs)) ys (omega arith)))

  -- Two copies, one behind the other.
  pub take-take_next : (n m : ℕ) (xs : List A) → take n xs ++ take m (drop n xs) ≡ take (n + m) xs
  take-take_next zero m xs = take_congr m (0 + m) xs (omega arith)
  take-take_next (suc n) m [] = take_nil m ∙ sym (take_nil (suc n + m))
  take-take_next (suc n) m (x ∷ xs) =
      ap (λ t. x ∷ t) (take-take_next n m xs)
      ∙ take_congr (suc (n + m)) (suc n + m) (x ∷ xs) (omega arith)

  pub drop-drop : (n k : ℕ) (xs : List A) → drop n (drop k xs) ≡ drop (k + n) xs
  drop-drop n zero xs = drop_congr n (0 + n) xs (omega arith)
  drop-drop n (suc k) [] = drop_nil n ∙ sym (drop_nil (suc k + n))
  drop-drop n (suc k) (x ∷ xs) =
      drop-drop n k xs ∙ drop_congr (suc (k + n)) (suc k + n) (x ∷ xs) (omega arith)

  -- A copy of `n` bytes from index `k` of two lists in a row.
  pub take-drop_append :
      (n k : ℕ) (xs ys : List A)
      → take n (drop k (xs ++ ys))
        ≡ take n (drop k xs) ++ take (n - (length xs - k)) (drop (k - length xs) ys)
  take-drop_append n k xs ys =
      ap (take n) (drop-append k xs ys)
      ∙ take-append n (drop k xs) (drop (k - length xs) ys)
      ∙ ap (λ t. take n (drop k xs) ++ t)
          (take_congr (n - length (drop k xs)) (n - (length xs - k)) (drop (k - length xs) ys)
            (omega (arith, length-drop k xs)))
