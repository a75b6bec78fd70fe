-- ===== src/Schemas/Slugs.antt =====
-- The slugs of projects and model aliases in schemas/api.py: words of small letters and digits with
-- single dashes between them.
use orbi_inference.Base.{
  ℕ, ◌≡◌, ◌↔◌, refl, sym, ap, subst, ◌∙◌, true, false, ◌&&◌, List, [], ◌∷◌, ◌++◌, All, arith,
  Bool-cases, inl, inr,
}
use orbi_inference.Base.Text.{Text}
use orbi_inference.Base.Text.Chars.{all_of}
use orbi_inference.Schemas.{is_slug_char, is_slug_from, is_slug}

-- A word, here by its first character and the others.
abbrev pub Word : Type 0
Word = ℕ × Text

abbrev pub IsWord : Word → Type 0
IsWord (c, s) = (is_slug_char c ≡ true) × (all_of is_slug_char s ≡ true)

-- The words with a dash before each but the first.
abbrev pub dashed : List Word → Text
dashed [] = []
dashed ((c, s) ∷ words) = b'-' ∷ c ∷ (s ++ dashed words)

abbrev pub joined : Word → List Word → Text
joined (c, s) words = c ∷ (s ++ dashed words)

word_onto :
    (s t : Text)
    → all_of is_slug_char s ≡ true
    → is_slug_from true t ≡ true
    → is_slug_from true (s ++ t) ≡ true
word_onto [] t h k = k
word_onto (c ∷ s) t h k = ground (arith, word_onto s t)

dashed-is_slug : (words : List Word) → All IsWord words → is_slug_from true (dashed words) ≡ true
dashed-is_slug [] h = refl
dashed-is_slug ((c, s) ∷ words) h =
    ground (arith, word_onto s (dashed words), dashed-is_slug words h.1)

joined-is_slug :
    (word : Word) (words : List Word)
    → IsWord word
    → All IsWord words
    → is_slug (joined word words) ≡ true
joined-is_slug (c, s) words g w = ground (arith, word_onto s (dashed words), dashed-is_slug words w)

dash_step :
    (c : ℕ) (s : Text)
    → is_slug_from true (c ∷ s) ≡ true
    → (is_slug_char c && is_slug_from true s) ≡ false
    → (c ≡ b'-') × (is_slug_from false s ≡ true)
dash_step c s h f = (ground arith, ground arith)

-- What is read behind a character is the rest of a word and dashed words; behind a dash, a word too.
mutual
  after_char-words :
      (s : Text)
      → is_slug_from true s ≡ true
      → (rest : Text) × (words : List Word) × (all_of is_slug_char rest ≡ true)
        × All IsWord words
        × (s ≡ rest ++ dashed words)
  after_char-words [] h = ([], [], refl, tt, refl)
  after_char-words (c ∷ s) h = elim (Bool-cases (is_slug_char c && is_slug_from true s)) [
    | inl t ↦
        let (rest, words, r, w, e) = after_char-words s (ground arith) in
        (c ∷ rest, words, ground arith, w, ap (λ x. c ∷ x) e)
    | inr f ↦
        let (is_dash, rest) = dash_step c s h f in
        let (word, words, g, w, e) = after_dash-words s rest in
        ([], word ∷ words, refl, (g, w), ap (λ d. d ∷ s) is_dash ∙ ap (λ x. b'-' ∷ x) e)
  ]

  after_dash-words :
      (s : Text)
      → is_slug_from false s ≡ true
      → (word : Word) × (words : List Word) × IsWord word
        × All IsWord words
        × (s ≡ joined word words)
  after_dash-words [] h = absurd (ground arith)
  after_dash-words (c ∷ s) h =
      let (rest, words, r, w, e) = after_char-words s (ground arith) in
      ((c, rest), words, (ground arith, r), w, ap (λ x. c ∷ x) e)

-- Exactly the texts of one word or more, with single dashes between them, are slugs.
pub is_slug_exact :
    (s : Text)
    → (is_slug s ≡ true) ↔ (
        (word : Word) × (words : List Word) × IsWord word
        × All IsWord words
        × (s ≡ joined word words))
is_slug_exact s = (
  after_dash-words s,
  λ (word, words, g, w, e). subst (λ x. is_slug x ≡ true) (sym e) (joined-is_slug word words g w),
)
