-- ===== src/Base/Text/Numerals.antt =====
-- Python's `int` on a text of bytes, and the decimal numeral of a number.
use orbi_inference.Base.Text.Chars.{all_of}
use orbi_inference.Base.{
  refl, ◌∙◌, ap, ltb→lt, inr, inl, Bool-cases, ◌≡◌, arith, ◌≤◌, ◌<◌, ℕ, zero, suc, ◌+◌, ◌-◌, ◌*◌,
  ◌/◌, ◌%◌, Bool, true, false, ◌&&◌, ◌||◌, Option, none, some, [], ◌∷◌, ltb, leb, ◌==◌,
  if◌then◌else◌, length,
}
use orbi_inference.Base.Text.{Text}
use orbi_inference.Base.Int.{ℤ, pos, negsuc}

abbrev pub is_digit : ℕ → Bool
is_digit c = leb b'0' c && leb c b'9'

-- The bytes that `strip` removes.
abbrev pub is_space : ℕ → Bool
is_space c = (leb 9 c && leb c 13) || c == b' '

abbrev pub drop_spaces : Text → Text
drop_spaces [] = []
drop_spaces (c ∷ s) = if is_space c then drop_spaces s else c ∷ s

abbrev drop_last_spaces : Text → Text
drop_last_spaces [] = []
drop_last_spaces (c ∷ s) =
    let rest = drop_last_spaces s in
    elim rest [ [] ↦ if is_space c then [] else c ∷ [] | d ∷ t ↦ c ∷ d ∷ t ]

abbrev strip : Text → Text
strip s = drop_last_spaces (drop_spaces s)

-- Digits with single underscores between them; `after` says that a digit stands before.
unfoldable pub read_digits : Bool → ℕ → Text → Option ℕ
read_digits after acc [] = if after then some acc else none
read_digits after acc (c ∷ s) =
    let digit = read_digits true (acc * 10 + (c - b'0')) s in
    let gap = read_digits false acc s in
    if is_digit c then digit else if c == b'_' && after then gap else none

abbrev pub count_digits : Text → ℕ
count_digits [] = 0
count_digits (c ∷ s) = if is_digit c then suc (count_digits s) else count_digits s

-- The digits without their sign; CPython refuses more than 4300 of them.
abbrev pub read_unsigned : Text → Option ℕ
read_unsigned s = if ltb 4300 (count_digits s) then none else read_digits false 0 s

abbrev pub negated : ℕ → ℤ
negated zero = pos 0
negated (suc n) = negsuc n

abbrev pub as_int : (ℕ → ℤ) → Option ℕ → Option ℤ
as_int sign none = none
as_int sign (some n) = some (sign n)

abbrev read_signed : Text → Option ℤ
read_signed [] = none
read_signed (c ∷ s) =
    if c == b'+'
    then as_int pos (read_unsigned s)
    else if c == b'-'
    then as_int negated (read_unsigned s)
    else as_int pos (read_unsigned (c ∷ s))

-- `int(s)`; `none` is a `ValueError`.
unfoldable pub parse_int : Text → Option ℤ
parse_int s = read_signed (strip s)

-- The decimal digits of a number, put before a text; the fuel `suc n` is enough.
abbrev digits_onto : ℕ → ℕ → Text → Text
digits_onto zero n s = s
digits_onto (suc fuel) n s =
    let more = digits_onto fuel (n / 10) ((b'0' + n % 10) ∷ s) in
    if ltb n 10 then (b'0' + n) ∷ s else more

-- `str(n)`
unfoldable pub decimal : ℕ → Text
decimal n = digits_onto (suc n) n []

one_digit : (d : ℕ) → d < 10 → is_digit (b'0' + d) ≡ true
one_digit d h = ground arith

no_plus : (c : ℕ) → is_digit c ≡ true → (c == b'+') ≡ false
no_plus c h = ground arith

no_minus : (c : ℕ) → is_digit c ≡ true → (c == b'-') ≡ false
no_minus c h = ground arith

read_digits-digits_onto :
    (fuel n : ℕ) (s : Text)
    → n < fuel
    → read_digits false 0 (digits_onto fuel n s) ≡ read_digits true n s
unfolding read_digits
read_digits-digits_onto zero n s h = absurd (omega arith)
read_digits-digits_onto (suc fuel) n s h = elim (Bool-cases (ltb n 10)) [
  | inl one ↦ rw (one, one_digit n (ltb→lt n 10 one)) (ap (λ k. read_digits true k s) (omega arith))
  | inr more ↦ rw more (
      read_digits-digits_onto fuel (n / 10) ((b'0' + n % 10) ∷ s) (ground arith)
      ∙ rw (one_digit (n % 10) (omega arith)) (ap (λ k. read_digits true k s) (omega arith)))
]

all_digits :
    (fuel n : ℕ) (s : Text)
    → all_of is_digit s ≡ true
    → all_of is_digit (digits_onto fuel n s) ≡ true
all_digits zero n s h = h
all_digits (suc fuel) n s h = elim (Bool-cases (ltb n 10)) [
  | inl one ↦ rw (one, one_digit n (ltb→lt n 10 one)) h
  | inr more ↦
      rw more
        (all_digits fuel (n / 10) ((b'0' + n % 10) ∷ s) (rw (one_digit (n % 10) (omega arith)) h))
]

digit-not-space : (c : ℕ) → is_digit c ≡ true → is_space c ≡ false
digit-not-space c h = ground arith

drop_spaces-digits : (s : Text) → all_of is_digit s ≡ true → drop_spaces s ≡ s
drop_spaces-digits [] h = refl
drop_spaces-digits (c ∷ s) h = rw (digit-not-space c (ground arith)) refl

drop_last_spaces-digits : (s : Text) → all_of is_digit s ≡ true → drop_last_spaces s ≡ s
drop_last_spaces-digits [] h = refl
drop_last_spaces-digits (c ∷ []) h = rw (digit-not-space c (ground arith)) refl
drop_last_spaces-digits (c ∷ d ∷ s) h = rw (drop_last_spaces-digits (d ∷ s) (ground arith)) refl

strip-digits : (s : Text) → all_of is_digit s ≡ true → strip s ≡ s
strip-digits s h = ap drop_last_spaces (drop_spaces-digits s h) ∙ drop_last_spaces-digits s h

count_digits-le : (s : Text) → count_digits s ≤ length s
count_digits-le [] = omega arith
count_digits-le (c ∷ s) = ground (arith, count_digits-le s)

-- A text of digits has no sign.
read_signed-digits :
    (s : Text) {n : ℕ}
    → all_of is_digit s ≡ true
    → length s ≤ 4300
    → read_digits false 0 s ≡ some n
    → read_signed s ≡ some (pos n)
unfolding read_digits
read_signed-digits [] h le e = absurd (ground arith)
read_signed-digits (c ∷ s) {n} h le e =
    let few : ltb 4300 (count_digits (c ∷ s)) ≡ false = ground (arith, count_digits-le (c ∷ s)) in
    rw (no_plus c (ground arith), no_minus c (ground arith), few, e) refl

-- A number is read back from its numeral.
pub parse_int-decimal : (n : ℕ) → length (decimal n) ≤ 4300 → parse_int (decimal n) ≡ some (pos n)
unfolding decimal parse_int read_digits
parse_int-decimal n h =
    let digits = all_digits (suc n) n [] refl in
    ap read_signed (strip-digits (digits_onto (suc n) n []) digits)
    ∙ read_signed-digits (digits_onto (suc n) n []) digits h
        (read_digits-digits_onto (suc n) n [] (omega arith) ∙ refl)
