-- ===== src/Base/Table.antt =====
-- A database table as a list of rows with a numeric primary key, and the queries that the gateway
-- issues: a select and an update by primary key, and an update of all rows that meet a condition.
pub mod Related
pub mod Sums
pub mod Members
use Prim.Native.Nat.{ℕ}
use mathlib.Core.Path.{◌≡◌, refl, sym, ◌∙◌}
use mathlib.Core.Logic.{◌⊎◌, inl, inr}
use mathlib.Core.Bool.{Bool, true, false}
use mathlib.Core.Option
use mathlib.Core.Option.{Option, none, some}
use mathlib.Core.List.{List, [], ◌∷◌}
use native.Mathlib.Omega.{arith}
use orbi_inference.Base.Tests.{Bool-cases, ==_iff, some-eq, ◌==◌, if◌then◌else◌}

-- `update(T).where(p).values(f)`
abbrev pub update_where {ℓ} : {A : Type ℓ} → (A → Bool) → (A → A) → List A → List A
update_where p f [] = []
update_where p f (x ∷ xs) = (if p x then f x else x) ∷ update_where p f xs

module _ {A : Type 0} (key : A → ℕ) where
  -- `select(T).where(T.id == k)`; a primary key has one row at most.
  unfoldable pub get : ℕ → List A → Option A
  get k [] = none
  get k (x ∷ xs) = if key x == k then some x else get k xs

  -- A change of the row with the key `k`, if there is one.
  unfoldable pub modify : ℕ → (A → A) → List A → List A
  modify k f [] = []
  modify k f (x ∷ xs) = if key x == k then f x ∷ xs else x ∷ modify k f xs

  -- No two rows share a key.
  abbrev pub IsKeyed : List A → Type 0
  IsKeyed [] = Unit
  IsKeyed (x ∷ xs) = (get (key x) xs ≡ none) × IsKeyed xs

  pub key-get : (k : ℕ) {a : A} (t : List A) → get k t ≡ some a → key a ≡ k
  unfolding get
  key-get k [] h = absurd (ground arith)
  key-get k {a} (x ∷ xs) h = ground (arith, key-get k {a = a} xs)

  pub get-modify :
      (j k : ℕ) (f : A → A) (t : List A)
      → ((a : A) → key (f a) ≡ key a)
      → get j (modify k f t) ≡ (if k == j then Option.map f (get j t) else get j t)
  unfolding get modify
  get-modify j k f [] h = ground arith
  get-modify j k f (x ∷ xs) h = ground (arith, h x, get-modify j k f xs h)

  pub modify-none : (k : ℕ) (f : A → A) (t : List A) → get k t ≡ none → modify k f t ≡ t
  unfolding get modify
  modify-none k f [] h = refl
  modify-none k f (x ∷ xs) h = ground (arith, modify-none k f xs)

  -- An object that was read, changed and written back under its key.
  pub get-replace :
      (j k : ℕ) (v : A) (t : List A) {a : A}
      → get k t ≡ some a
      → key v ≡ k
      → get j (modify k (λ _. v) t) ≡ (if k == j then some v else get j t)
  unfolding get modify
  get-replace j k v [] h e = absurd (ground arith)
  get-replace j k v (x ∷ xs) {a} h e = ground (arith, get-replace j k v xs {a = a})

  pub get-replace-cases :
      (j k : ℕ) (v : A) (t : List A) {a b : A}
      → get k t ≡ some a
      → key v ≡ k
      → get j (modify k (λ _. v) t) ≡ some b
      → ((j ≡ k) × (b ≡ v)) ⊎ (((k == j) ≡ false) × (get j t ≡ some b))
  get-replace-cases j k v t {a} {b} h e g = elim (Bool-cases (k == j)) [
    | inl q ↦
        let same : some v ≡ some b = sym (rw q at (get-replace j k v t h e)) ∙ g in
        inl (sym ((==_iff k j).0 q), sym (some-eq same))
    | inr q ↦ inr (q, sym (rw q at (get-replace j k v t h e)) ∙ g)
  ]

  pub get-replace_self :
      (k : ℕ) (v : A) (t : List A) {a : A}
      → get k t ≡ some a
      → key v ≡ k
      → get k (modify k (λ _. v) t) ≡ some v
  get-replace_self k v t h e = rw (get-replace k k v t h e, (==_iff k k).1 refl)
