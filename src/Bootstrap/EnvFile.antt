-- ===== src/Bootstrap/EnvFile.antt =====
-- What python-dotenv, which is not of this repository, reads from a file of variables, and that it
-- reads what scripts/bootstrap-dev.py has assigned.
use orbi_inference.Base.{
  ℕ, ◌≡◌, refl, ap, ◌∙◌, Bool, true, not, ◌&&◌, List, [], ◌∷◌, ◌++◌, ◌==◌, both, arith,
}
use orbi_inference.Base.Text.{Text, codes}
use orbi_inference.Base.Text.Chars.{is_alnum, is_urlsafe, all_of}
use orbi_inference.Bootstrap.{Assignment, bare, quoted, render}

-- A character that stands for itself between single quotes: no quote, line break, backslash or brace.
abbrev pub is_literal : ℕ → Bool
is_literal c =
    not (c == b'\'') && not (c == 10) && not (c == 13) && not (c == b'\\') && not (c == b'{')

-- What the library documents of the lines `NAME=value` and `NAME='value'`.
pub record Dotenv : Type 0 where
  pub read : Text → List (Text × Text)
  pub read-nothing : read [] ≡ []
  pub read-bare :
      (name value rest : Text)
      → all_of is_urlsafe name ≡ true
      → all_of is_alnum value ≡ true
      → read (name ++ (61 ∷ (value ++ (10 ∷ rest)))) ≡ ((name, value) ∷ read rest)
  pub read-quoted :
      (name value rest : Text)
      → all_of is_urlsafe name ≡ true
      → all_of is_literal value ≡ true
      → read (name ++ (61 ∷ 39 ∷ (value ++ (39 ∷ 10 ∷ rest)))) ≡ ((name, value) ∷ read rest)

-- The line can be read back.
abbrev pub is_readable : Assignment → Bool
is_readable (bare name value) = all_of is_urlsafe (codes name) && all_of is_alnum value
is_readable (quoted name value) = all_of is_urlsafe (codes name) && all_of is_literal value

abbrev pub are_readable : List Assignment → Bool
are_readable [] = true
are_readable (a ∷ rest) = is_readable a && are_readable rest

abbrev pub pair : Assignment → Text × Text
pair (bare name value) = (codes name, value)
pair (quoted name value) = (codes name, value)

abbrev pub pairs : List Assignment → List (Text × Text)
pairs [] = []
pairs (a ∷ rest) = pair a ∷ pairs rest

read-line :
    (dotenv : Dotenv) (a : Assignment) (rest : List Assignment)
    → is_readable a ≡ true
    → dotenv.read (render (a ∷ rest)) ≡ (pair a ∷ dotenv.read (render rest))
read-line dotenv (bare name value) rest h =
    let (n, v) = both (all_of is_urlsafe (codes name)) (all_of is_alnum value) h in
    dotenv.read-bare (codes name) value (render rest) n v
read-line dotenv (quoted name value) rest h =
    let (n, v) = both (all_of is_urlsafe (codes name)) (all_of is_literal value) h in
    dotenv.read-quoted (codes name) value (render rest) n v

pub read-render :
    (dotenv : Dotenv) (file : List Assignment)
    → are_readable file ≡ true
    → dotenv.read (render file) ≡ pairs file
read-render dotenv [] h = dotenv.read-nothing
read-render dotenv (a ∷ rest) h =
    let (first, later) = both (is_readable a) (are_readable rest) h in
    read-line dotenv a rest first ∙ ap (λ values. pair a ∷ values) (read-render dotenv rest later)

is_urlsafe→is_literal : (c : ℕ) → is_urlsafe c ≡ true → is_literal c ≡ true
is_urlsafe→is_literal c h = ground arith

pub literal_token : (s : Text) → all_of is_urlsafe s ≡ true → all_of is_literal s ≡ true
literal_token [] h = refl
literal_token (c ∷ s) h =
    let (first, later) = both (is_urlsafe c) (all_of is_urlsafe s) h in
    rw (is_urlsafe→is_literal c first) (literal_token s later)

pub all_of-append :
    (p : ℕ → Bool) (s t : Text) → all_of p s ≡ true → all_of p t ≡ true → all_of p (s ++ t) ≡ true
all_of-append p [] t h k = k
all_of-append p (c ∷ s) t h k =
    let (first, later) = both (p c) (all_of p s) h in rw first (all_of-append p s t later k)
