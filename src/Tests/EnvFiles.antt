-- ===== src/Tests/EnvFiles.antt =====
-- A reader of files of variables that keeps to what dotenv documents of plain and quoted values.
use mathlib.Core.List.{append_assoc, append-nil}
use orbi_inference.Base.{
  ℕ, ◌≡◌, refl, sym, ap, ◌∙◌, true, false, List, [], ◌∷◌, ◌++◌, ◌==◌, both, arith, if◌then◌else◌,
}
use orbi_inference.Base.Text.{Text}
use orbi_inference.Base.Text.Chars.{is_alnum, is_urlsafe, all_of}
use orbi_inference.Bootstrap.EnvFile.{Dotenv, is_literal}

-- Where the reader is: in a name, before a value, in a bare or a quoted one, or behind the latter.
data State : Type 0 where
  naming valued : Text → State
  bare quoted : Text → Text → State
  ended : State

abbrev step : State → ℕ → State
step (naming name) c = if c == 61 then valued name else naming (name ++ c ∷ [])
step (valued name) c =
    if c == 39 then quoted name [] else if c == 10 then naming [] else bare name (c ∷ [])
step (bare name value) c = if c == 10 then naming [] else bare name (value ++ c ∷ [])
step (quoted name value) c = if c == 39 then ended else quoted name (value ++ c ∷ [])
step ended c = if c == 10 then naming [] else ended

abbrev emit : State → ℕ → List (Text × Text) → List (Text × Text)
emit (valued name) c rest = if c == 10 then (name, []) ∷ rest else rest
emit (bare name value) c rest = if c == 10 then (name, value) ∷ rest else rest
emit (quoted name value) c rest = if c == 39 then (name, value) ∷ rest else rest
emit _ c rest = rest

read_from : State → Text → List (Text × Text)
read_from state [] = []
read_from state (c ∷ s) = emit state c (read_from (step state c) s)

urlsafe-name : (c : ℕ) → is_urlsafe c ≡ true → (c == 61) ≡ false
urlsafe-name c h = ground arith

alnum-value : (c : ℕ) → is_alnum c ≡ true → ((c == 39) ≡ false) × ((c == 10) ≡ false)
alnum-value c h = (ground arith, ground arith)

literal-value : (c : ℕ) → is_literal c ≡ true → (c == 39) ≡ false
literal-value c h = ground arith

longer : (acc s : Text) (c : ℕ) → ((acc ++ c ∷ []) ++ s) ≡ (acc ++ c ∷ s)
longer acc s c = append_assoc acc (c ∷ []) s

read_name :
    (acc name s : Text)
    → all_of is_urlsafe name ≡ true
    → read_from (naming acc) (name ++ 61 ∷ s) ≡ read_from (valued (acc ++ name)) s
unfolding read_from
read_name acc [] s h = ap (λ n. read_from (valued n) s) (sym (append-nil acc))
read_name acc (c ∷ name) s h =
    let (first, later) = both (is_urlsafe c) (all_of is_urlsafe name) h in
    rw (urlsafe-name c first) (
      read_name (acc ++ c ∷ []) name s later ∙ ap (λ n. read_from (valued n) s) (longer acc name c))

read_bare :
    (name acc value s : Text)
    → all_of is_alnum value ≡ true
    → read_from (bare name acc) (value ++ 10 ∷ s) ≡ ((name, acc ++ value) ∷ read_from (naming []) s)
unfolding read_from
read_bare name acc [] s h = ap (λ v. (name, v) ∷ read_from (naming []) s) (sym (append-nil acc))
read_bare name acc (c ∷ value) s h =
    let (first, later) = both (is_alnum c) (all_of is_alnum value) h in
    rw ((alnum-value c first).1) (
      read_bare name (acc ++ c ∷ []) value s later
      ∙ ap (λ v. (name, v) ∷ read_from (naming []) s) (longer acc value c))

read_valued :
    (name value s : Text)
    → all_of is_alnum value ≡ true
    → read_from (valued name) (value ++ 10 ∷ s) ≡ ((name, value) ∷ read_from (naming []) s)
unfolding read_from
read_valued name [] s h = refl
read_valued name (c ∷ value) s h =
    let (first, later) = both (is_alnum c) (all_of is_alnum value) h in
    let (no_quote, no_break) = alnum-value c first in
    rw (no_quote, no_break) (read_bare name (c ∷ []) value s later)

read_quoted :
    (name acc value s : Text)
    → all_of is_literal value ≡ true
    → read_from (quoted name acc) (value ++ 39 ∷ 10 ∷ s)
      ≡ ((name, acc ++ value) ∷ read_from (naming []) s)
unfolding read_from
read_quoted name acc [] s h = ap (λ v. (name, v) ∷ read_from (naming []) s) (sym (append-nil acc))
read_quoted name acc (c ∷ value) s h =
    let (first, later) = both (is_literal c) (all_of is_literal value) h in
    rw (literal-value c first) (
      read_quoted name (acc ++ c ∷ []) value s later
      ∙ ap (λ v. (name, v) ∷ read_from (naming []) s) (longer acc value c))

pub plain_dotenv : Dotenv
unfolding read_from
plain_dotenv = record {
  read = read_from (naming []);
  read-nothing = refl;
  read-bare = λ name value rest n v.
      read_name [] name (value ++ 10 ∷ rest) n ∙ read_valued name value rest v;
  read-quoted = λ name value rest n v.
      read_name [] name (39 ∷ (value ++ 39 ∷ 10 ∷ rest)) n ∙ read_quoted name [] value rest v;
}
