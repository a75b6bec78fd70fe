-- ===== src/Logging/Redaction.antt =====
-- That no token is left in a text that `redact_secrets` of logging.py has rewritten.
use orbi_inference.Base.{
  ℕ, zero, suc, ◌<◌, ◌≤◌, ◌≡◌, ◌⊎◌, refl, sym, ap, ◌∙◌, Option, none, some, [], ◌∷◌, ◌++◌, length,
  length-append, arith, Option-cases, inl, inr, none-ne_some,
}
use orbi_inference.Base.Text.{Text, codes}
use orbi_inference.Base.Text.Chars.{strip_prefix, strip_prefix→append}
use orbi_inference.Base.Text.Patterns.{or_first}
use orbi_inference.Logging.{match_token, replacement, at_character, substitute, redact}
use orbi_inference.Logging.Token.{
  after_run, after_secret, token_prefix, find_kind, find_any, match_token-any,
}

-- The four kinds of a token.
pub data Kind : Text → Type 0 where
  live : Kind (codes "live")
  test : Kind (codes "test")
  node : Kind (codes "node")
  admin : Kind (codes "admin")

or_first-cases :
    {A : Type 0} (a b : Option A) {x : A} → or_first a b ≡ some x → (a ≡ some x) ⊎ (b ≡ some x)
or_first-cases none b h = inr h
or_first-cases (some a) b h = inl h

-- A match is of one of the kinds.
pub match_token-kind :
    (s : Text) {rest : Text}
    → match_token s ≡ some rest
    → (kind : Text) × Kind kind × (find_kind kind s ≡ some rest)
match_token-kind s {rest} h =
    elim (or_first-cases (find_kind (codes "live") s) _ (sym (match_token-any s) ∙ h)) [
      | inl e ↦ (codes "live", live, e)
      | inr g ↦ elim (or_first-cases (find_kind (codes "test") s) _ g) [
        | inl e ↦ (codes "test", test, e)
        | inr k ↦ elim (or_first-cases (find_kind (codes "node") s) _ k) [
          | inl e ↦ (codes "node", node, e)
          | inr e ↦ (codes "admin", admin, e)
        ]
      ]
    ]

or_first-some :
    {A : Type 0} (a b : Option A) {x : A}
    → (a ≡ some x) ⊎ ((y : A) × (b ≡ some y))
    → (y : A) × (or_first a b ≡ some y)
or_first-some (some a) b h = (a, refl)
or_first-some none b (inl h) = absurd (none-ne_some h)
or_first-some none b (inr h) = h

pub kind-match_token :
    (kind s : Text) {rest : Text}
    → Kind kind
    → find_kind kind s ≡ some rest
    → (r : Text) × (match_token s ≡ some r)
kind-match_token kind s {rest} k h = let (r, e) = any k h in (r, match_token-any s ∙ e)
  where
    any :
        {kind : Text} {rest : Text}
        → Kind kind
        → find_kind kind s ≡ some rest
        → (r : Text) × (find_any s ≡ some r)
    any {rest = rest} live h = or_first-some _ _ (inl h)
    any {rest = rest} test h =
        or_first-some (find_kind (codes "live") s) _ {x = rest} (inr (or_first-some _ _ (inl h)))
    any {rest = rest} node h = or_first-some (find_kind (codes "live") s) _ {x = rest} (
        inr (
          or_first-some (find_kind (codes "test") s) _ {x = rest}
            (inr (or_first-some _ _ (inl h)))))
    any {rest = rest} admin h = or_first-some (find_kind (codes "live") s) _ {x = rest} (
        inr (
          or_first-some (find_kind (codes "test") s) _ {x = rest}
            (inr (or_first-some (find_kind (codes "node") s) _ {x = rest} (inr (rest, h))))))

after_run-le : (s : Text) → length (after_run s) ≤ length s
after_run-le [] = omega arith
after_run-le (c ∷ s) = ground (arith, after_run-le s)

after_secret-lt :
    (s : Text) {rest : Text} → after_secret (some s) ≡ some rest → length rest < length s
after_secret-lt [] h = absurd (none-ne_some h)
after_secret-lt (c ∷ s) {rest} h = ground (arith, after_run-le s)

find_kind-lt : (kind s : Text) {rest : Text} → find_kind kind s ≡ some rest → length rest < length s
find_kind-lt kind s {rest} h = elim (Option-cases (strip_prefix (token_prefix kind) s)) [
  | inl e ↦ absurd (none-ne_some (sym (ap after_secret e) ∙ h))
  | inr (u, e) ↦ omega (
    arith,
    ap length (strip_prefix→append (token_prefix kind) s e),
    length-append (token_prefix kind) u,
    after_secret-lt u {rest = rest} (sym (ap after_secret e) ∙ h),
  )
]

-- A match is not empty.
pub match_token-lt : (s : Text) {rest : Text} → match_token s ≡ some rest → length rest < length s
match_token-lt s {rest} h = let (kind, _, e) = match_token-kind s h in find_kind-lt kind s e

-- More fuel changes nothing.
substitute-fuel :
    (f g : ℕ) (s : Text) → length s ≤ f → length s ≤ g → substitute f s ≡ substitute g s
unfolding substitute
substitute-fuel zero zero s h k = refl
substitute-fuel zero (suc g) [] h k = refl
substitute-fuel (suc f) zero [] h k = refl
substitute-fuel (suc f) (suc g) [] h k = refl
substitute-fuel zero g (c ∷ s) h k = absurd (omega arith)
substitute-fuel f zero (c ∷ s) h k = absurd (omega arith)
substitute-fuel (suc f) (suc g) (c ∷ s) h k = elim (Option-cases (match_token (c ∷ s))) [
  | inl e ↦
      ap (at_character (substitute f) c s) e
      ∙ ap (λ t. c ∷ t) (substitute-fuel f g s (omega arith) (omega arith))
      ∙ sym (ap (at_character (substitute g) c s) e)
  | inr (rest, e) ↦
      ap (at_character (substitute f) c s) e
      ∙ ap (λ t. replacement ++ t)
          (substitute-fuel f g rest (omega (arith, match_token-lt (c ∷ s) e))
            (omega (arith, match_token-lt (c ∷ s) e)))
      ∙ sym (ap (at_character (substitute g) c s) e)
]

pub redact-token :
    (c : ℕ) (s : Text) {rest : Text}
    → match_token (c ∷ s) ≡ some rest
    → redact (c ∷ s) ≡ replacement ++ redact rest
unfolding redact substitute
redact-token c s {rest} h =
    ap (at_character (substitute (length s)) c s) h
    ∙ ap (λ t. replacement ++ t)
        (substitute-fuel (length s) (length rest) rest (omega (arith, match_token-lt (c ∷ s) h))
          (omega arith))

pub redact-plain : (c : ℕ) (s : Text) → match_token (c ∷ s) ≡ none → redact (c ∷ s) ≡ c ∷ redact s
unfolding redact substitute
redact-plain c s h = ap (at_character (substitute (length s)) c s) h
