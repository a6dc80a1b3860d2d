-- ===== src/Base/Lists.antt =====
-- Lists measured by native numbers, Boolean filters, and weighted totals: what the SQL aggregates
-- COUNT and SUM compute over the rows that pass a test.
use Prim.Native.Nat.{ℕ, ◌+◌, ◌≤◌, ◌<◌, suc}
use mathlib.Core.Path.{◌≡◌, refl}
use mathlib.Core.Bool.{Bool, true, false, ◌||◌}
use mathlib.Core.List.{List, [], ◌∷◌, ◌++◌}
use native.Mathlib.Omega.{arith}
use zcash_faucet.Base.Tests.{if◌then◌else◌, one_if}

abbrev pub All {ℓ κ} : {A : Type ℓ} → (A → Type κ) → List A → Type κ
All P [] = Unit
All P (x ∷ xs) = P x × All P xs

module _ {ℓ} {A : Type ℓ} where
  abbrev pub length : List A → ℕ
  length [] = 0
  length (x ∷ xs) = suc (length xs)

  abbrev pub any : (A → Bool) → List A → Bool
  any p [] = false
  any p (x ∷ xs) = p x || any p xs

  -- The library's `filter` takes a decision; the program's tests are Boolean.
  abbrev pub keep : (A → Bool) → List A → List A
  keep p [] = []
  keep p (x ∷ xs) = let rest = keep p xs in if p x then x ∷ rest else rest

  unfoldable pub total : (A → ℕ) → List A → ℕ
  total w [] = 0
  total w (x ∷ xs) = w x + total w xs

  abbrev pub count_if : (A → Bool) → List A → ℕ
  count_if p = total (λ x. one_if (p x))

  pub total-append : (w : A → ℕ) (xs ys : List A) → total w (xs ++ ys) ≡ total w xs + total w ys
  unfolding total
  total-append w [] ys = omega arith
  total-append w (x ∷ xs) ys = omega (arith, total-append w xs ys)

  pub total-snoc : (w : A → ℕ) (xs : List A) (x : A) → total w (xs ++ x ∷ []) ≡ total w xs + w x
  unfolding total
  total-snoc w [] x = omega arith
  total-snoc w (y ∷ xs) x = omega (arith, total-snoc w xs x)

  pub total_mono : (w v : A → ℕ) (xs : List A) → ((x : A) → w x ≤ v x) → total w xs ≤ total v xs
  unfolding total
  total_mono w v [] h = omega arith
  total_mono w v (x ∷ xs) h = omega (arith, h x, total_mono w v xs h)

  pub total_congr : (w v : A → ℕ) (xs : List A) → ((x : A) → w x ≡ v x) → total w xs ≡ total v xs
  unfolding total
  total_congr w v [] h = refl
  total_congr w v (x ∷ xs) h = omega (arith, h x, total_congr w v xs h)

  pub total-keep-le : (w : A → ℕ) (p : A → Bool) (xs : List A) → total w (keep p xs) ≤ total w xs
  unfolding total
  total-keep-le w p [] = omega arith
  total-keep-le w p (x ∷ xs) = ground (arith, total-keep-le w p xs)

  -- Dropping elements of no weight changes no total.
  pub total-keep :
      (w : A → ℕ) (p : A → Bool) (xs : List A)
      → ((x : A) → p x ≡ false → w x ≡ 0)
      → total w (keep p xs) ≡ total w xs
  unfolding total
  total-keep w p [] h = refl
  total-keep w p (x ∷ xs) h = ground (arith, h x, total-keep w p xs h)

  pub any-eq-true_of_count : (p : A → Bool) (xs : List A) → any p xs ≡ true → 0 < count_if p xs
  unfolding total
  any-eq-true_of_count p [] h = cc
  any-eq-true_of_count p (x ∷ xs) h = ground (arith, any-eq-true_of_count p xs)

  pub count-eq-zero_of_any : (p : A → Bool) (xs : List A) → any p xs ≡ false → count_if p xs ≡ 0
  unfolding total
  count-eq-zero_of_any p [] h = refl
  count-eq-zero_of_any p (x ∷ xs) h = ground (arith, count-eq-zero_of_any p xs)

  pub any-eq-false_of_count : (p : A → Bool) (xs : List A) → count_if p xs ≡ 0 → any p xs ≡ false
  unfolding total
  any-eq-false_of_count p [] h = refl
  any-eq-false_of_count p (x ∷ xs) h = ground (arith, any-eq-false_of_count p xs)
