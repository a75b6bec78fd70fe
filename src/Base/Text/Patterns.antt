-- ===== src/Base/Text/Patterns.antt =====
-- Regular expressions as Python's `re` runs them: alternatives from left to right, repetitions as
-- long as they can be, and back again where the rest does not match.
use orbi_inference.Base.{ℕ, Bool, Option, none, some, [], ◌∷◌, if◌then◌else◌}
use orbi_inference.Base.Text.{Text}
use orbi_inference.Base.Text.Chars.{strip_prefix}

pub data Pattern : Type 0 where
  literal : Text → Pattern
  either : Pattern → Pattern → Pattern
  in_turn : Pattern → Pattern → Pattern
  -- `[…]+`
  one_or_more : (ℕ → Bool) → Pattern
  -- `(?:…)?`
  optional : Pattern → Pattern

abbrev pub or_first : {A : Type 0} → Option A → Option A → Option A
or_first none b = b
or_first (some a) b = some a

-- The rest of the text after a match and what follows it.
abbrev pub repeat : (ℕ → Bool) → Text → (Text → Option Text) → Option Text
repeat test [] k = none
repeat test (c ∷ s) k =
    let longer = repeat test s k in if test c then or_first longer (k s) else none

abbrev pub match : Pattern → Text → (Text → Option Text) → Option Text
match (literal t) s k = elim (strip_prefix t s) [ none ↦ none | some rest ↦ k rest ]
match (either a b) s k = or_first (match a s k) (match b s k)
match (in_turn a b) s k = match a s (λ rest. match b rest k)
match (one_or_more test) s k = repeat test s k
match (optional a) s k = or_first (match a s k) (k s)
