-- ===== src/Prelude/Sums.antt =====
-- Sums of a weight over a list. Two lists with the same sums hold the same items, as often.
use Prim.Native.Nat.{ℕ, ◌+◌}
use mathlib.Core.Path.{◌≡◌}
use mathlib.Core.List.{List, [], ◌∷◌, ◌++◌}
use native.Mathlib.Omega.{arith}

module _ {A : Type 0} where
  abbrev pub sum : (A → ℕ) → List A → ℕ
  sum g [] = 0
  sum g (x ∷ xs) = g x + sum g xs

  abbrev pub SameItems : List A → List A → Type 0
  SameItems xs ys = (g : A → ℕ) → sum g xs ≡ sum g ys

  pub sum-append : (g : A → ℕ) (xs ys : List A) → sum g (xs ++ ys) ≡ sum g xs + sum g ys
  sum-append g [] ys = omega arith
  sum-append g (x ∷ xs) ys = omega (arith, sum-append g xs ys)
