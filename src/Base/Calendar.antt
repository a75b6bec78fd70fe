-- ===== src/Base/Calendar.antt =====
-- Python's `datetime` in UTC, as microseconds since 1970, and its `date`.
use native.Mathlib.Omega.{arith}
use Prim.Native.Nat.{◌≤◌, ℕ, ◌+◌, ◌-◌, ◌*◌, ◌/◌, ◌%◌, ◌<◌}
use mathlib.Core.Path.{◌≡◌, refl}
use mathlib.Core.Logic.{◌⊎◌}
use mathlib.Core.Bool.{false, Bool, ◌&&◌}
use orbi_inference.Base.Tests.{◌==◌, ltb, if◌then◌else◌}

abbrev pub Instant : Type 0
Instant = ℕ

-- `timedelta(seconds=n)`
abbrev pub seconds : ℕ → ℕ
seconds n = n * 1_000_000

-- `timedelta(minutes=n)`
abbrev pub minutes : ℕ → ℕ
minutes n = seconds (n * 60)

pub record Date : Type 0 where
  pub year : ℕ
  pub month : ℕ
  pub day : ℕ

-- `a == b` of two dates
abbrev pub date_eq : Date → Date → Bool
date_eq a b = a.year == b.year && a.month == b.month && a.day == b.day

-- The civil date of a day counted from 1970-01-01. The year is shifted to begin in March, so that a
-- leap day is the last of its year: 719468 days lie between 0000-03-01 and 1970-01-01.
civil : ℕ → Date
civil n =
    let z : ℕ = n + 719468 in
    let era : ℕ = z / 146097 in
    let doe : ℕ = z % 146097 in
    let yoe : ℕ = (doe - doe / 1460 + doe / 36524 - doe / 146096) / 365 in
    let doy : ℕ = doe + yoe / 100 - yoe * 365 - yoe / 4 in
    let mp : ℕ = (5 * doy + 2) / 153 in
    let m : ℕ = if ltb mp 10 then mp + 3 else mp - 9 in
    record {
      year = yoe + era * 400 + (if ltb m 3 then 1 else 0);
      month = m;
      day = doy - (153 * mp + 2) / 5 + 1;
    }

-- `now.date()`
unfoldable pub date_of : Instant → Date
unfolding civil
date_of now = civil (now / 86_400_000_000)

-- `today.replace(day=1)`
abbrev pub first_of_month : Date → Date
first_of_month d = record d { day = 1 }

-- The order of dates, `a <= b`.
abbrev pub Upto : Date → Date → Type 0
Upto a b =
    (a.year < b.year)
    ⊎ ((a.year ≡ b.year) × (a.month < b.month))
    ⊎ ((a.year ≡ b.year) × (a.month ≡ b.month) × (a.day ≤ b.day))

pub Upto-refl : (a : Date) → Upto a a
Upto-refl a = omega arith

pub Upto-trans : (a b c : Date) → Upto a b → Upto b c → Upto a c
Upto-trans a b c p q = omega arith

-- A date no later than one that is strictly before today is not today.
pub Upto-ne :
    (a b today : Date) → Upto a b → Upto b today → date_eq b today ≡ false → date_eq today a ≡ false
Upto-ne a b today p q h = ground arith

date_of_leap_day : date_of (seconds 1_709_164_800) ≡ record { year = 2024; month = 2; day = 29 }
unfolding date_of
date_of_leap_day = refl

date_of_epoch : date_of 0 ≡ record { year = 1970; month = 1; day = 1 }
unfolding date_of
date_of_epoch = refl

date_of_new_year : date_of (seconds 1_735_689_599) ≡ record { year = 2024; month = 12; day = 31 }
unfolding date_of
date_of_new_year = refl
