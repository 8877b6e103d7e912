-- ===== src/Base/Totals.antt =====
-- Sums over a list, and what one write does to them.
use Prim.Native.Nat.{ℕ, zero, suc, ◌+◌, ◌*◌, ◌≤◌, ◌<◌}
use mathlib.Core.Path.{◌≡◌, ap}
use mathlib.Core.List.{List, [], ◌∷◌}
use mathlib.Core.Option.{some}
use native.Mathlib.Omega.{arith}
use pothos_core.Base.Lists.{length, get_elem?, set, replicate}

module _ {ℓ} {A : Type ℓ} where
  abbrev pub total : (A → ℕ) → List A → ℕ
  total f [] = 0
  total f (x ∷ xs) = f x + total f xs

  pub total-set :
      (f : A → ℕ) (xs : List A) (i : ℕ) (x y : A)
      → get_elem? xs i ≡ some x
      → total f (set xs i y) + f x ≡ total f xs + f y
  total-set f [] i x y e = cc
  total-set f (z ∷ xs) zero x y e = let same : z ≡ x = cc in omega (arith, ap f same)
  total-set f (z ∷ xs) (suc i) x y e = omega (arith, total-set f xs i x y e)

  pub total-replicate : (f : A → ℕ) (n : ℕ) (x : A) → total f (replicate n x) ≡ n * f x
  total-replicate f zero x = omega arith
  total-replicate f (suc n) x = grind (arith, total-replicate f n x)

  pub total-get :
      (f : A → ℕ) (xs : List A) (i : ℕ) (x : A) → get_elem? xs i ≡ some x → f x ≤ total f xs
  total-get f [] i x e = cc
  total-get f (z ∷ xs) zero x e = let same : z ≡ x = cc in omega (arith, ap f same)
  total-get f (z ∷ xs) (suc i) x e = omega (arith, total-get f xs i x e)

  -- Two different places together have at most the sum.
  pub total-two :
      (f : A → ℕ) (xs : List A) (i j : ℕ) (x y : A)
      → i < j
      → get_elem? xs i ≡ some x
      → get_elem? xs j ≡ some y
      → f x + f y ≤ total f xs
  total-two f [] i j x y h e e' = cc
  total-two f (z ∷ xs) i zero x y h e e' = absurd (omega arith)
  total-two f (z ∷ xs) zero (suc j) x y h e e' =
      let same : z ≡ x = cc in omega (arith, ap f same, total-get f xs j y e')
  total-two f (z ∷ xs) (suc i) (suc j) x y h e e' =
      omega (arith, total-two f xs i j x y (omega arith) e e')

  pub total-le : (f : A → ℕ) (xs : List A) → ((x : A) → f x ≤ 1) → total f xs ≤ length xs
  total-le f [] h = omega arith
  total-le f (x ∷ xs) h = omega (arith, h x, total-le f xs h)
