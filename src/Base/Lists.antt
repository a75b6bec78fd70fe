-- ===== src/Base/Lists.antt =====
-- Lists measured by native numbers, and predicates on all their elements.
use Prim.Native.Nat.{ℕ, zero, suc, ◌+◌}
use mathlib.Core.Path.{◌≡◌, refl, ap}
use mathlib.Core.Bool.{Bool}
use mathlib.Core.Option.{Option, none, some}
use mathlib.Core.List.{List, [], ◌∷◌, ◌++◌}
use native.Mathlib.Omega.{arith}
use orbi_inference.Base.Tests.{if◌then◌else◌}

module _ {ℓ} {A : Type ℓ} where
  abbrev pub length : List A → ℕ
  length [] = 0
  length (_ ∷ xs) = suc (length xs)

  abbrev pub take : ℕ → List A → List A
  take zero xs = []
  take (suc n) [] = []
  take (suc n) (x ∷ xs) = x ∷ take n xs

  abbrev pub drop : ℕ → List A → List A
  drop zero xs = xs
  drop (suc n) [] = []
  drop (suc n) (x ∷ xs) = drop n xs

  -- A predicate by recursion computes to tuples, which the tactics read and build.
  abbrev pub All {κ} : (A → Type κ) → List A → Type κ
  All P [] = Unit
  All P (x ∷ xs) = P x × All P xs

  -- The rows that meet a test, in their order.
  abbrev pub keep : (A → Bool) → List A → List A
  keep p [] = []
  keep p (x ∷ xs) = if p x then x ∷ keep p xs else keep p xs

  -- `scalar_one_or_none()` of a select that one row meets at most.
  abbrev pub first_where : (A → Bool) → List A → Option A
  first_where p [] = none
  first_where p (x ∷ xs) = if p x then some x else first_where p xs

  -- The sum of a measure over a list.
  abbrev pub sum_by : (A → ℕ) → List A → ℕ
  sum_by c [] = 0
  sum_by c (x ∷ xs) = c x + sum_by c xs

  pub length-append : (xs ys : List A) → length (xs ++ ys) ≡ length xs + length ys
  length-append [] ys = omega arith
  length-append (_ ∷ xs) ys = omega (arith, length-append xs ys)

  pub sum_by-append : (c : A → ℕ) (xs ys : List A) → sum_by c (xs ++ ys) ≡ sum_by c xs + sum_by c ys
  sum_by-append c [] ys = omega arith
  sum_by-append c (x ∷ xs) ys = omega (arith, sum_by-append c xs ys)

  pub take-append : (n : ℕ) (a b : List A) → length a ≡ n → take n (a ++ b) ≡ a
  take-append zero [] b e = refl
  take-append (suc n) [] b e = absurd (omega (arith, e))
  take-append zero (x ∷ a) b e = absurd (omega (arith, e))
  take-append (suc n) (x ∷ a) b e = ap (λ t. x ∷ t) (take-append n a b (omega (arith, e)))

  pub drop-append : (n : ℕ) (a b : List A) → length a ≡ n → drop n (a ++ b) ≡ b
  drop-append zero [] b e = refl
  drop-append (suc n) [] b e = absurd (omega (arith, e))
  drop-append zero (x ∷ a) b e = absurd (omega (arith, e))
  drop-append (suc n) (x ∷ a) b e = drop-append n a b (omega (arith, e))

  pub append-take-drop : (n : ℕ) (s : List A) → take n s ++ drop n s ≡ s
  append-take-drop zero s = refl
  append-take-drop (suc n) [] = refl
  append-take-drop (suc n) (x ∷ s) = ap (λ t. x ∷ t) (append-take-drop n s)
