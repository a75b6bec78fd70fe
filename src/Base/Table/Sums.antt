-- ===== src/Base/Table/Sums.antt =====
-- Sums over a table, and what updates do to them.
use Prim.Native.Nat.{ℕ, ◌+◌}
use mathlib.Core.Path.{◌≡◌, refl}
use mathlib.Core.Bool.{Bool, true}
use mathlib.Core.Option.{some}
use mathlib.Core.List.{List, [], ◌∷◌}
use native.Mathlib.Omega.{arith}
use orbi_inference.Base.Lists.{All, keep, sum_by}
use orbi_inference.Base.Table.{get, modify, update_where}

-- A changed row trades its old share of the sum for its new one.
pub sum_by-modify :
    {A : Type 0} (key : A → ℕ) (c : A → ℕ) (k : ℕ) (f : A → A) (t : List A) {a : A}
    → get key k t ≡ some a
    → sum_by c (modify key k f t) + c a ≡ sum_by c t + c (f a)
unfolding get modify
sum_by-modify key c k f [] h = absurd (ground arith)
sum_by-modify key c k f (x ∷ xs) {a} h = ground (arith, sum_by-modify key c k f xs {a = a})

pub sum_by-update_where :
    {A : Type 0} (c : A → ℕ) (p : A → Bool) (f : A → A) (t : List A)
    → sum_by c (update_where p f t) + sum_by c (keep p t)
      ≡ sum_by c t + sum_by (λ a. c (f a)) (keep p t)
sum_by-update_where c p f [] = refl
sum_by-update_where c p f (x ∷ xs) = ground (arith, sum_by-update_where c p f xs)

-- An update that changes no row's share leaves the sum alone.
pub sum_by-update_where_same :
    {A : Type 0} (c : A → ℕ) (p : A → Bool) (f : A → A) (t : List A)
    → ((a : A) → p a ≡ true → c (f a) ≡ c a)
    → sum_by c (update_where p f t) ≡ sum_by c t
sum_by-update_where_same c p f [] h = refl
sum_by-update_where_same c p f (x ∷ xs) h = ground (arith, h x, sum_by-update_where_same c p f xs h)

pub sum_by-zero : {A : Type 0} (c : A → ℕ) (t : List A) → All (λ a. c a ≡ 0) t → sum_by c t ≡ 0
sum_by-zero c [] h = refl
sum_by-zero c (x ∷ xs) h = omega (arith, sum_by-zero c xs h.1)

-- Each row that an update selects had the share `d`, and has none left.
pub sum_by-update_where_drop :
    {A : Type 0} (c d : A → ℕ) (p : A → Bool) (f : A → A) (t : List A)
    → ((a : A) → p a ≡ true → (c (f a) ≡ 0) × (c a ≡ d a))
    → sum_by c (update_where p f t) + sum_by d (keep p t) ≡ sum_by c t
sum_by-update_where_drop c d p f [] h = refl
sum_by-update_where_drop c d p f (x ∷ xs) h =
    ground (arith, h x, sum_by-update_where_drop c d p f xs h)
