-- ===== src/Base/Table/Related.antt =====
-- Tables whose rows are related one by one: what an update does to every row.
use mathlib.Core.Path.{◌∙◌, subst}
use Prim.Native.Nat.{ℕ}
use mathlib.Core.Path.{sym, ◌≡◌, refl}
use mathlib.Core.Logic.{inl, inr}
use mathlib.Core.Bool.{Bool, true, false}
use mathlib.Core.Option.{none, some}
use mathlib.Core.List.{List, [], ◌∷◌}
use native.Mathlib.Omega.{arith}
use orbi_inference.Base.Tests.{
  none-ne_some, Option-cases, ◌==◌, Bool-cases, Option-cases, none-ne_some, some-eq,
}
use orbi_inference.Base.Lists.{All}
use orbi_inference.Base.Table.{get, modify, update_where, IsKeyed}

module _ {A : Type 0} (key : A → ℕ) where
  abbrev pub Related : (A → A → Type 0) → List A → List A → Type 0
  Related R [] [] = Unit
  Related R (x ∷ xs) (y ∷ ys) = R x y × Related R xs ys
  Related R _ _ = ⊥

  pub Related-refl : (R : A → A → Type 0) → ((a : A) → R a a) → (t : List A) → Related R t t
  Related-refl R r [] = tt
  Related-refl R r (x ∷ xs) = (r x, Related-refl R r xs)

  pub modify-Related :
      (R : A → A → Type 0) (k : ℕ) (f : A → A) (t : List A)
      → ((a : A) → R a a)
      → ((a : A) → get key k t ≡ some a → R a (f a))
      → Related R t (modify key k f t)
  unfolding get modify
  modify-Related R k f [] r h = tt
  modify-Related R k f (x ∷ xs) r h = elim (Bool-cases (key x == k)) [
    | inl e ↦ rw e (h x (rw e), Related-refl R r xs)
    | inr e ↦ rw e (r x, modify-Related R k f xs r (λ a g. h a (rw e g)))
  ]

  pub update_where-Related :
      (R : A → A → Type 0) (p : A → Bool) (f : A → A) (t : List A)
      → ((a : A) → p a ≡ false → R a a)
      → ((a : A) → p a ≡ true → R a (f a))
      → Related R t (update_where p f t)
  update_where-Related R p f [] r h = tt
  update_where-Related R p f (x ∷ xs) r h = elim (Bool-cases (p x)) [
    | inl e ↦ rw e (h x e, update_where-Related R p f xs r h)
    | inr e ↦ rw e (r x e, update_where-Related R p f xs r h)
  ]

  pub Related-All :
      (R : A → A → Type 0) (P : A → Type 0) (t u : List A)
      → ((a b : A) → R a b → P a → P b)
      → Related R t u
      → All P t
      → All P u
  Related-All R P [] [] keeps h p = tt
  Related-All R P (x ∷ xs) (y ∷ ys) keeps h p =
      (keeps x y h.0 p.0, Related-All R P xs ys keeps h.1 p.1)
  Related-All R P [] (y ∷ ys) keeps h p = absurd h
  Related-All R P (x ∷ xs) [] keeps h p = absurd h

  -- The row that takes the place of `a` under the same key.
  pub Related-get :
      (R : A → A → Type 0) (k : ℕ) (t u : List A) (a : A)
      → ((a b : A) → R a b → key b ≡ key a)
      → Related R t u
      → get key k t ≡ some a
      → (b : A) × (get key k u ≡ some b) × R a b
  unfolding get
  Related-get R k [] u a keeps h g = absurd (ground arith)
  Related-get R k (x ∷ xs) [] a keeps h g = absurd h
  Related-get R k (x ∷ xs) (y ∷ ys) a keeps h g = elim (Bool-cases (key x == k)) [
    | inl e ↦ let same : x ≡ a = ground arith in (y, rw (keeps x y h.0, e), rw same at (h.0))
    | inr e ↦ rw (keeps x y h.0, e) (Related-get R k xs ys a keeps h.1 (rw e at g))
  ]

  pub Related-get-none :
      (R : A → A → Type 0) (k : ℕ) (t u : List A)
      → ((a b : A) → R a b → key b ≡ key a)
      → Related R t u
      → get key k t ≡ none
      → get key k u ≡ none
  unfolding get
  Related-get-none R k [] [] keeps h g = refl
  Related-get-none R k [] (y ∷ ys) keeps h g = absurd h
  Related-get-none R k (x ∷ xs) [] keeps h g = absurd h
  Related-get-none R k (x ∷ xs) (y ∷ ys) keeps h g =
      ground (arith, keeps x y h.0, Related-get-none R k xs ys keeps h.1)

  pub Related-IsKeyed :
      (R : A → A → Type 0) (t u : List A)
      → ((a b : A) → R a b → key b ≡ key a)
      → Related R t u
      → IsKeyed key t
      → IsKeyed key u
  Related-IsKeyed R [] [] keeps h w = tt
  Related-IsKeyed R [] (y ∷ ys) keeps h w = absurd h
  Related-IsKeyed R (x ∷ xs) [] keeps h w = absurd h
  Related-IsKeyed R (x ∷ xs) (y ∷ ys) keeps h w = (
    rw (keeps x y h.0) (Related-get-none R (key x) xs ys keeps h.1 w.0),
    Related-IsKeyed R xs ys keeps h.1 w.1,
  )

  pub Related-trans :
      (R : A → A → Type 0) (t u v : List A)
      → ((a b c : A) → R a b → R b c → R a c)
      → Related R t u
      → Related R u v
      → Related R t v
  Related-trans R [] [] [] chain h g = tt
  Related-trans R (x ∷ xs) (y ∷ ys) (z ∷ zs) chain h g =
      (chain x y z h.0 g.0, Related-trans R xs ys zs chain h.1 g.1)
  Related-trans R [] (y ∷ ys) v chain h g = absurd h
  Related-trans R (x ∷ xs) [] v chain h g = absurd h
  Related-trans R [] [] (z ∷ zs) chain h g = absurd g
  Related-trans R (x ∷ xs) (y ∷ ys) [] chain h g = absurd g

  -- The other way round: the row that was there before.
  pub Related-get_before :
      (R : A → A → Type 0) (k : ℕ) (t u : List A) (b : A)
      → ((x y : A) → R x y → key y ≡ key x)
      → Related R t u
      → get key k u ≡ some b
      → (a : A) × (get key k t ≡ some a) × R a b
  Related-get_before R k t u b keeps h g = elim (Option-cases (get key k t)) [
    | inl e ↦ absurd (none-ne_some (sym (Related-get-none R k t u keeps h e) ∙ g))
    | inr (a, e) ↦
        let (b', found, r) = Related-get R k t u a keeps h e in
        (a, e, subst (R a) (some-eq (sym found ∙ g)) r)
  ]
