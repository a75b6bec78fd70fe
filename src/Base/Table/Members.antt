-- ===== src/Base/Table/Members.antt =====
-- Membership in a table, and the rows that a select returns.
use Prim.Native.Nat.{ℕ}
use mathlib.Core.Path.{◌≡◌, refl, sym, ap}
use mathlib.Core.Logic.{◌⊎◌, inl, inr}
use mathlib.Core.Bool.{Bool, true}
use mathlib.Core.Option.{none, some}
use mathlib.Core.List.{List, [], ◌∷◌, ◌++◌}
use native.Mathlib.Omega.{arith}
use orbi_inference.Base.Tests.{◌==◌, if◌then◌else◌, Bool-cases, ==_iff}
use orbi_inference.Base.Lists.{All, keep}
use orbi_inference.Base.Table.{get, IsKeyed}

abbrev pub IsIn : {A : Type 0} → A → List A → Type 0
IsIn a [] = ⊥
IsIn a (x ∷ xs) = (a ≡ x) ⊎ IsIn a xs

kept :
    {A : Type 0} (p : A → Bool) (a x : A) (xs : List A)
    → p x ≡ true
    → (a ≡ x) ⊎ IsIn a (keep p xs)
    → (IsIn a (keep p xs) → IsIn a xs × (p a ≡ true))
    → IsIn a (x ∷ xs) × (p a ≡ true)
kept p a x xs e (inl q) rest = (inl q, rw q e)
kept p a x xs e (inr m) rest = let (m', t) = rest m in (inr m', t)

pub keep-IsIn :
    {A : Type 0} (p : A → Bool) (a : A) (t : List A) → IsIn a (keep p t) → IsIn a t × (p a ≡ true)
keep-IsIn p a [] h = absurd h
keep-IsIn p a (x ∷ xs) h = elim (Bool-cases (p x)) [
  | inl e ↦ kept p a x xs e (rw e at h) (keep-IsIn p a xs)
  | inr e ↦ let (m, t) = keep-IsIn p a xs (rw e at h) in (inr m, t)
]

pub IsIn-keep :
    {A : Type 0} (p : A → Bool) (a : A) (t : List A) → IsIn a t → p a ≡ true → IsIn a (keep p t)
IsIn-keep p a [] h e = absurd h
IsIn-keep p a (x ∷ xs) (inl q) e = rw (← q, e) (inl refl)
IsIn-keep p a (x ∷ xs) (inr m) e = elim (Bool-cases (p x)) [
  | inl t ↦ rw t (inr (IsIn-keep p a xs m e))
  | inr t ↦ rw t (IsIn-keep p a xs m e)
]

pub All-IsIn : {A : Type 0} (P : A → Type 0) (a : A) (t : List A) → All P t → IsIn a t → P a
All-IsIn P a [] h m = absurd m
All-IsIn P a (x ∷ xs) h (inl q) = rw q h.0
All-IsIn P a (x ∷ xs) h (inr m) = All-IsIn P a xs h.1 m

module _ {A : Type 0} (key : A → ℕ) where
  pub get-IsIn : (k : ℕ) (a : A) (t : List A) → get key k t ≡ some a → IsIn a t
  unfolding get
  get-IsIn k a [] h = absurd (ground arith)
  get-IsIn k a (x ∷ xs) h = elim (Bool-cases (key x == k)) [
    | inl e ↦ inl (ground arith)
    | inr e ↦ inr (get-IsIn k a xs (rw e at h))
  ]

  IsIn-get-ne-none : (a : A) (t : List A) → IsIn a t → get key (key a) t ≡ none → ⊥
  unfolding get
  IsIn-get-ne-none a [] m h = m
  IsIn-get-ne-none a (x ∷ xs) (inl q) h = ground (arith, ap key q)
  IsIn-get-ne-none a (x ∷ xs) (inr m) h = ground (arith, IsIn-get-ne-none a xs m)

  -- A select by primary key finds the row that has it.
  pub IsKeyed-get : (a : A) (t : List A) → IsKeyed key t → IsIn a t → get key (key a) t ≡ some a
  unfolding get
  IsKeyed-get a [] w m = absurd m
  IsKeyed-get a (x ∷ xs) w (inl q) = rw q (ground arith)
  IsKeyed-get a (x ∷ xs) w (inr m) = elim (Bool-cases (key x == key a)) [
    | inl e ↦ absurd (IsIn-get-ne-none a xs m (rw (sym ((==_iff (key x) (key a)).0 e)) w.0))
    | inr e ↦ rw e (IsKeyed-get a xs w.1 m)
  ]

  -- A new row goes to the end; one with a fresh key disturbs no other.
  pub get-append :
      (k : ℕ) (a : A) (t : List A)
      → get key k (t ++ a ∷ [])
        ≡ elim (get key k t) [ none ↦ if key a == k then some a else none | some b ↦ some b ]
  unfolding get
  get-append k a [] = refl
  get-append k a (x ∷ xs) = ground (arith, get-append k a xs)

  pub IsKeyed-append :
      (a : A) (t : List A) → IsKeyed key t → get key (key a) t ≡ none → IsKeyed key (t ++ a ∷ [])
  unfolding get
  IsKeyed-append a [] w h = (refl, tt)
  IsKeyed-append a (x ∷ xs) w h =
      (ground (arith, get-append (key x) a xs), IsKeyed-append a xs w.1 (ground arith))
