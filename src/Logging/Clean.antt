-- ===== src/Logging/Clean.antt =====
-- That no token is left in what `redact_secrets` of logging.py has rewritten: in a text, and in the
-- nested values of an event.
use orbi_inference.Base.{
  ◌⊎◌, zero, suc, ◌≤◌, ℕ, ◌≡◌, refl, sym, subst, ap, ◌∙◌, Bool, true, not, Option, none, some, [],
  ◌∷◌, ◌++◌, ◌==◌, length, if◌then◌else◌, arith, Bool-cases, Option-cases, inl, inr, none-ne_some,
  some-eq,
}
use orbi_inference.Base.Text.{Text, codes}
use orbi_inference.Base.Text.Chars.{is_urlsafe, all_of, strip_prefix}
use orbi_inference.Logging.{substitute, match_token, replacement, redact}
use orbi_inference.Logging.Token.{after_run, after_secret, find_kind}
use orbi_inference.Logging.Redaction.{
  match_token-lt, Kind, live, test, node, admin, match_token-kind, kind-match_token, redact-token,
  redact-plain,
}

-- At no position of the text does a token start.
abbrev pub NoToken : Text → Type 0
NoToken [] = Unit
NoToken (c ∷ s) = (match_token (c ∷ s) ≡ none) × NoToken s

redact-nil : redact [] ≡ []
unfolding redact substitute
redact-nil = refl

abbrev is_plain : ℕ → Bool
is_plain c = not (c == b'[')

-- What starts a rewritten text is a bracket, or what started the text itself.
redact-cases :
    (s : Text) {c : ℕ} {r : Text}
    → redact s ≡ c ∷ r
    → is_plain c ≡ true
    → (t : Text) × (s ≡ c ∷ t) × (r ≡ redact t)
redact-cases [] {c} {r} h plain = absurd (ground (arith, redact-nil))
redact-cases (d ∷ t) {c} {r} h plain = elim (Option-cases (match_token (d ∷ t))) [
  | inl e ↦
      let same : d ∷ redact t ≡ c ∷ r = sym (redact-plain d t e) ∙ h in
      (t, ground (arith, same), ground (arith, same))
  | inr (rest, e) ↦
      let same : replacement ++ redact rest ≡ c ∷ r = sym (redact-token d t e) ∙ h in
      absurd (ground (arith, same))
]

List-cases : (s : Text) → (s ≡ []) ⊎ ((c : ℕ) × (t : Text) × (s ≡ c ∷ t))
List-cases [] = inl refl
List-cases (c ∷ t) = inr (c, t, refl)

strip_prefix-head :
    (c : ℕ) (p : Text) (d : ℕ) (u : Text) {r : Text}
    → strip_prefix (c ∷ p) (d ∷ u) ≡ some r
    → (c ≡ d) × (strip_prefix p u ≡ some r)
strip_prefix-head c p d u {r} h = (ground arith, ground arith)

strip_prefix-cons :
    (c : ℕ) (p t : Text) {r : Text}
    → strip_prefix p t ≡ some r
    → strip_prefix (c ∷ p) (c ∷ t) ≡ some r
strip_prefix-cons c p t {r} h = ground arith

-- A prefix of a rewritten text was there before.
strip_prefix-redact :
    (p s : Text) {r : Text}
    → all_of is_plain p ≡ true
    → strip_prefix p (redact s) ≡ some r
    → (t : Text) × (strip_prefix p s ≡ some t) × (r ≡ redact t)
strip_prefix-redact [] s plain h = (s, refl, sym (some-eq h))
strip_prefix-redact (c ∷ p) s {r} plain h = elim (List-cases (redact s)) [
  | inl e ↦ absurd (none-ne_some (ap (strip_prefix (c ∷ p)) (sym e) ∙ h))
  | inr (d, u, e) ↦
      let (same, rest) =
        strip_prefix-head c p d u {r = r} (ap (strip_prefix (c ∷ p)) (sym e) ∙ h) in
      let (t, before, after) =
        redact-cases s {c = c} {r = u} (e ∙ ap (λ x. x ∷ u) (sym same)) (ground arith) in
      let (v, stripped, there) =
        strip_prefix-redact p t {r = r} (ground arith) (ap (strip_prefix p) (sym after) ∙ rest) in
      (v, ap (strip_prefix (c ∷ p)) before ∙ strip_prefix-cons c p t stripped, there)
]

after_secret-urlsafe :
    (d : ℕ) (u : Text) {r : Text} → after_secret (some (d ∷ u)) ≡ some r → is_urlsafe d ≡ true
after_secret-urlsafe d u {r} h = elim (Bool-cases (is_urlsafe d)) [
  | inl e ↦ e
  | inr e ↦ absurd (none-ne_some (rw e at h))
]

plain_of : (d : ℕ) → is_urlsafe d ≡ true → is_plain d ≡ true
plain_of d h = ground arith

after_secret-redact :
    (s : Text) {r : Text}
    → after_secret (some (redact s)) ≡ some r
    → (t : Text) × (after_secret (some s) ≡ some t)
after_secret-redact s {r} h = elim (List-cases (redact s)) [
  | inl e ↦ absurd (none-ne_some (ap (λ x. after_secret (some x)) (sym e) ∙ h))
  | inr (d, u, e) ↦
      let safe : is_urlsafe d ≡ true =
        after_secret-urlsafe d u (ap (λ x. after_secret (some x)) (sym e) ∙ h) in
      let (t, before, _) = redact-cases s {c = d} {r = u} e (plain_of d safe) in
      (after_run t, ap (λ x. after_secret (some x)) before ∙ rw safe refl)
]

-- A token's prefix behind its first letter.
abbrev second_part : Text → Text
second_part kind = codes "rbi_" ++ (kind ++ codes "_v1_")

second_part-plain : {kind : Text} → Kind kind → all_of is_plain (second_part kind) ≡ true
second_part-plain live = refl
second_part-plain test = refl
second_part-plain node = refl
second_part-plain admin = refl

find_kind-parts :
    (kind : Text) (c : ℕ) (s : Text) {r : Text}
    → find_kind kind (c ∷ s) ≡ some r
    → ((b'o' == c) ≡ true)
      × ((u : Text) × (strip_prefix (second_part kind) s ≡ some u)
          × (after_secret (some u) ≡ some r))
find_kind-parts kind c s {r} h =
    let at_letter : Bool → Option Text =
      λ b. after_secret (if b then strip_prefix (second_part kind) s else none) in
    elim (Bool-cases (b'o' == c)) [
      | inr e ↦ absurd (none-ne_some (sym (ap at_letter e) ∙ h))
      | inl e ↦
          let rest : after_secret (strip_prefix (second_part kind) s) ≡ some r =
            sym (ap at_letter e) ∙ h in
          elim (Option-cases (strip_prefix (second_part kind) s)) [
            | inl g ↦ absurd (none-ne_some (sym (ap after_secret g) ∙ rest))
            | inr (u, g) ↦ (e, (u, g, sym (ap after_secret g) ∙ rest))
          ]
    ]

find_kind-whole :
    (kind : Text) (c : ℕ) (s : Text) {u r : Text}
    → (b'o' == c) ≡ true
    → strip_prefix (second_part kind) s ≡ some u
    → after_secret (some u) ≡ some r
    → find_kind kind (c ∷ s) ≡ some r
find_kind-whole kind c s {u} {r} e g h =
    ap (λ b. after_secret (if b then strip_prefix (second_part kind) s else none)) e
    ∙ ap after_secret g
    ∙ h

find_kind-redact :
    (kind : Text) (c : ℕ) (s : Text) {r : Text}
    → Kind kind
    → find_kind kind (c ∷ redact s) ≡ some r
    → (t : Text) × (find_kind kind (c ∷ s) ≡ some t)
find_kind-redact kind c s {r} k h =
    let (letter, (u, started, secret)) = find_kind-parts kind c (redact s) {r = r} h in
    let (t, stripped, there) =
      strip_prefix-redact (second_part kind) s (second_part-plain k) started in
    let (w, found) =
      after_secret-redact t {r = r} (ap (λ x. after_secret (some x)) (sym there) ∙ secret) in
    (w, find_kind-whole kind c s {u = t} {r = w} letter stripped found)

-- No token starts where none did.
match_token-redact :
    (c : ℕ) (s : Text) → match_token (c ∷ s) ≡ none → match_token (c ∷ redact s) ≡ none
match_token-redact c s h = elim (Option-cases (match_token (c ∷ redact s))) [
  | inl e ↦ e
  | inr (r, e) ↦
      let (kind, k, found) = match_token-kind (c ∷ redact s) e in
      let (t, there) = find_kind-redact kind c s k found in
      let (u, back) = kind-match_token kind (c ∷ s) k there in absurd (none-ne_some (sym h ∙ back))
]

-- A text that no `o` starts is not a token.
match_token-other : (c : ℕ) (s : Text) → not (c == b'o') ≡ true → match_token (c ∷ s) ≡ none
match_token-other c s h = elim (Option-cases (match_token (c ∷ s))) [
  | inl e ↦ e
  | inr (r, e) ↦
      let (kind, k, found) = match_token-kind (c ∷ s) e in
      absurd (ground (arith, (find_kind-parts kind c s {r = r} found).0))
]

NoToken-append :
    (p t : Text) → all_of (λ c. not (c == b'o')) p ≡ true → NoToken t → NoToken (p ++ t)
NoToken-append [] t h n = n
NoToken-append (c ∷ p) t h n =
    (match_token-other c (p ++ t) (ground arith), NoToken-append p t (ground arith) n)

NoToken-substituted : (fuel : ℕ) (s : Text) → length s ≤ fuel → NoToken (redact s)
NoToken-substituted fuel [] h = subst NoToken (sym redact-nil) tt
NoToken-substituted zero (c ∷ s) h = absurd (omega arith)
NoToken-substituted (suc fuel) (c ∷ s) h = elim (Option-cases (match_token (c ∷ s))) [
  | inl e ↦
      subst NoToken (sym (redact-plain c s e))
        (match_token-redact c s e, NoToken-substituted fuel s (omega arith))
  | inr (rest, e) ↦ subst NoToken (sym (redact-token c s e)) (
      NoToken-append replacement (redact rest) refl
        (NoToken-substituted fuel rest (omega (arith, match_token-lt (c ∷ s) e))))
]

pub redact-NoToken : (s : Text) → NoToken (redact s)
redact-NoToken s = NoToken-substituted (length s) s (omega arith)

pub redact-of_clean : (s : Text) → NoToken s → redact s ≡ s
redact-of_clean [] h = redact-nil
redact-of_clean (c ∷ s) h = redact-plain c s h.0 ∙ ap (λ t. c ∷ t) (redact-of_clean s h.1)
