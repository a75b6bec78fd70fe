-- ===== src/Idempotency.antt =====
-- apps/gateway/src/orbi_gateway/services/idempotency.py: the format of idempotency keys.
use orbi_inference.Base.{
  ap, some-eq, refl, both, All, ◌⊎◌, [], ◌∷◌, leb→le, ℕ, ◌≤◌, ◌≡◌, ◌↔◌, Bool, true, ◌&&◌, ◌||◌,
  Option, none, some, arith, leb, ◌==◌, length, if◌then◌else◌, not,
}
use orbi_inference.Base.Text.{Text}
use orbi_inference.Base.Text.Chars.{is_alnum, all_of}
use orbi_inference.Errors.{Result, ok, err, value_error}

-- `[A-Za-z0-9._:-]`
abbrev is_key_char : ℕ → Bool
is_key_char c = is_alnum c || c == b'.' || c == b'_' || c == b':' || c == b'-'

-- `_IDEMPOTENCY_RE.fullmatch(value)`
abbrev pub matches_key : Text → Bool
matches_key value = leb 8 (length value) && leb (length value) 128 && all_of is_key_char value

unfoldable pub validate_idempotency_key : Option Text → Result (Option Text)
validate_idempotency_key none = ok none
validate_idempotency_key (some value) =
    if not (matches_key value)
    then err (value_error "Idempotency-Key must be 8-128 URL-safe visible characters")
    else ok (some value)

-- A letter, a digit, or one of `.`, `_`, `:` and `-`, by their code points.
abbrev pub IsKeyChar : ℕ → Type 0
IsKeyChar c =
    ((65 ≤ c) × (c ≤ 90))
    ⊎ ((97 ≤ c) × (c ≤ 122))
    ⊎ ((48 ≤ c) × (c ≤ 57))
    ⊎ (c ≡ 46)
    ⊎ (c ≡ 95)
    ⊎ (c ≡ 58)
    ⊎ (c ≡ 45)

abbrev pub IsKey : Text → Type 0
IsKey key = (8 ≤ length key) × (length key ≤ 128) × All IsKeyChar key

is_key_char_iff : (c : ℕ) → (is_key_char c ≡ true) ↔ IsKeyChar c
is_key_char_iff c = ground arith

all_of-All : (s : Text) → all_of is_key_char s ≡ true → All IsKeyChar s
all_of-All [] h = tt
all_of-All (c ∷ s) h =
    let (first, later) : (is_key_char c ≡ true) × (all_of is_key_char s ≡ true) =
      both (is_key_char c) _ h in
    ((is_key_char_iff c).0 first, all_of-All s later)

All-all_of : (s : Text) → All IsKeyChar s → all_of is_key_char s ≡ true
All-all_of [] h = refl
All-all_of (c ∷ s) h = rw ((is_key_char_iff c).1 h.0) (All-all_of s h.1)

matches_key→IsKey : (value : Text) → matches_key value ≡ true → IsKey value
matches_key→IsKey value h =
    let (sizes, chars) = both (leb 8 (length value) && leb (length value) 128) _ h in
    let (long, short) = both (leb 8 (length value)) _ sizes in
    (leb→le _ _ long, leb→le _ _ short, all_of-All value chars)

le→leb : (m n : ℕ) → m ≤ n → leb m n ≡ true
le→leb m n h = ground arith

IsKey→matches_key : (value : Text) → IsKey value → matches_key value ≡ true
IsKey→matches_key value (long, short, chars) =
    rw (le→leb 8 (length value) long, le→leb (length value) 128 short, All-all_of value chars) refl

matches_key_iff : (value : Text) → (matches_key value ≡ true) ↔ IsKey value
matches_key_iff value = (matches_key→IsKey value, IsKey→matches_key value)

accepted_key :
    (value key : Text) → validate_idempotency_key (some value) ≡ ok (some key) → value ≡ key
unfolding validate_idempotency_key
accepted_key value key h = ground arith

accepted_matches :
    (value key : Text)
    → validate_idempotency_key (some value) ≡ ok (some key)
    → matches_key value ≡ true
unfolding validate_idempotency_key
accepted_matches value key h = ground arith

matching_accepted :
    (value : Text)
    → matches_key value ≡ true
    → validate_idempotency_key (some value) ≡ ok (some value)
unfolding validate_idempotency_key
matching_accepted value h = rw h

-- The validation answers with a key exactly if it was given that key and the key has 8 to 128
-- characters, all letters, digits, or one of the four others that are allowed.
pub validate_idempotency_key_exact :
    (value : Option Text) (key : Text)
    → (validate_idempotency_key value ≡ ok (some key)) ↔ ((value ≡ some key) × IsKey key)
unfolding validate_idempotency_key
validate_idempotency_key_exact none key = ground arith
validate_idempotency_key_exact (some value) key = (
  λ h.
      let e = accepted_key value key h in
      (ap some e, rw e at ((matches_key_iff value).0 (accepted_matches value key h))),
  λ h.
      let e : value ≡ key = some-eq h.0 in
      rw e (matching_accepted key ((matches_key_iff key).1 h.1)),
)
