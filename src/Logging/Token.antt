-- ===== src/Logging/Token.antt =====
-- What the expression `_TOKEN_PATTERN` of logging.py matches: one of four prefixes and the longest
-- run of URL-safe characters behind it. Its last group never matches anything.
use orbi_inference.Base.{
  ◌++◌, not, not, ℕ, ◌≡◌, refl, sym, ap, ◌∙◌, Bool, true, false, Option, none, some, [], ◌∷◌, ◌==◌,
  if◌then◌else◌, arith, Bool-cases, Option-cases, inl, inr,
}
use orbi_inference.Base.Text.{Text, codes}
use orbi_inference.Base.Text.Chars.{is_urlsafe, strip_prefix}
use orbi_inference.Base.Text.Patterns.{
  repeat, match, or_first, literal, in_turn, one_or_more, optional,
}
use orbi_inference.Logging.{match_token}

-- The rest behind the longest run of URL-safe characters.
abbrev pub after_run : Text → Text
after_run [] = []
after_run (c ∷ s) = if is_urlsafe c then after_run s else c ∷ s

abbrev pub after_secret : Option Text → Option Text
after_secret none = none
after_secret (some []) = none
after_secret (some (c ∷ s)) = if is_urlsafe c then some (after_run s) else none

abbrev pub token_prefix : Text → Text
token_prefix kind = codes "orbi_" ++ (kind ++ codes "_v1_")

-- A token of one kind at the start of a text.
abbrev pub find_kind : Text → Text → Option Text
find_kind kind s = after_secret (strip_prefix (token_prefix kind) s)

abbrev pub find_any : Text → Option Text
find_any s = or_first (find_kind (codes "live") s) (
    or_first (find_kind (codes "test") s)
      (or_first (find_kind (codes "node") s) (find_kind (codes "admin") s)))

abbrev last_group : Text → Option Text
last_group s =
    match (optional (in_turn (literal (codes "_")) (one_or_more is_urlsafe))) s (λ rest. some rest)

abbrev pub stops : Text → Bool
stops [] = true
stops (c ∷ s) = not (is_urlsafe c)

no_underscore : (c : ℕ) → is_urlsafe c ≡ false → (b'_' == c) ≡ false
no_underscore c h = ground arith

last_group-stops : (s : Text) → stops s ≡ true → last_group s ≡ some s
last_group-stops [] h = refl
last_group-stops (c ∷ s) h = rw (no_underscore c (ground arith)) refl

-- The run is as long as it can be.
repeat-run : (s : Text) → repeat is_urlsafe s last_group ≡ after_secret (some s)
repeat-run [] = refl
repeat-run (c ∷ []) = refl
repeat-run (c ∷ d ∷ s) = elim (Bool-cases (is_urlsafe d)) [
  | inl more ↦ rw (repeat-run (d ∷ s), more) refl
  | inr last ↦ rw (repeat-run (d ∷ s), last, last_group-stops (d ∷ s) (rw last refl)) refl
]

strip_prefix-of_append :
    (p q s : Text)
    → strip_prefix (p ++ q) s
      ≡ elim (strip_prefix p s) [ none ↦ none | some rest ↦ strip_prefix q rest ]
strip_prefix-of_append [] q s = refl
strip_prefix-of_append (c ∷ p) q [] = refl
strip_prefix-of_append (c ∷ p) q (d ∷ s) = ground (arith, strip_prefix-of_append p q s)

-- What follows the kind of a token.
abbrev after_kind : Text → Option Text
after_kind t = elim (strip_prefix (codes "_v1_") t) [
  | none ↦ none
  | some u ↦ repeat is_urlsafe u last_group
]

abbrev one_kind : Text → Text → Option Text
one_kind kind r = elim (strip_prefix kind r) [ none ↦ none | some t ↦ after_kind t ]

after_kind_lem : (t : Text) → after_secret (strip_prefix (codes "_v1_") t) ≡ after_kind t
after_kind_lem t = elim (Option-cases (strip_prefix (codes "_v1_") t)) [
  | inl e ↦ rw e refl
  | inr (u, e) ↦ rw e (sym (repeat-run u))
]

after_literal :
    (o : Option Text)
    → after_secret (elim o [ none ↦ none | some t ↦ strip_prefix (codes "_v1_") t ])
      ≡ elim o [ none ↦ none | some t ↦ after_kind t ]
after_literal none = refl
after_literal (some t) = after_kind_lem t

one_kind_lem :
    (kind r : Text) → after_secret (strip_prefix (kind ++ codes "_v1_") r) ≡ one_kind kind r
one_kind_lem kind r =
    ap after_secret (strip_prefix-of_append kind (codes "_v1_") r)
    ∙ after_literal (strip_prefix kind r)

find_kind-steps :
    (kind s : Text)
    → find_kind kind s
      ≡ elim (strip_prefix (codes "orbi_") s) [ none ↦ none | some r ↦ one_kind kind r ]
find_kind-steps kind s =
    ap after_secret (strip_prefix-of_append (codes "orbi_") (kind ++ codes "_v1_") s)
    ∙ elim (Option-cases (strip_prefix (codes "orbi_") s)) [
      | inl e ↦ rw e refl
      | inr (r, e) ↦ rw e (one_kind_lem kind r)
    ]

-- The expression matches a token of one of the four kinds, with all URL-safe characters behind it.
pub match_token-any : (s : Text) → match_token s ≡ find_any s
match_token-any s =
    rw
      (
        find_kind-steps (codes "live") s,
        find_kind-steps (codes "test") s,
        find_kind-steps (codes "node") s,
        find_kind-steps (codes "admin") s,
      )
      (elim (Option-cases (strip_prefix (codes "orbi_") s)) [
        | inl e ↦ rw e refl
        | inr (r, e) ↦ rw e refl
      ])
