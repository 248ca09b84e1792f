-- ===== src/Dates/Laws.antt =====
-- The number that a relative time shows suits its unit.
use poolx.Common.{
  ℕ, zero, suc, ◌+◌, ◌-◌, ◌*◌, ◌/◌, ◌≤◌, ◌<◌, false, some, ◌≡◌, refl, arith, if◌then◌else◌, ltb,
  Bool-cases, inl, inr, ltb→lt,
}
use native.Mathlib.Nat.{le-div_iff_mul-le}
use poolx.Common.Int.{ℤ, pos, negsuc, negate}
use poolx.Dates.{
  abs, round_div, TimeUnit, second, minute, hour, day, month, year, Relative, shown, from_months,
  from_days, from_hours, from_minutes, from_seconds, format_relative_time,
}

-- The numbers of a unit that are not better shown in the next one, nor rounded away.
abbrev pub Suits : TimeUnit → ℕ → Type 0
Suits second n = n < 60
Suits minute n = (1 ≤ n) × (n < 60)
Suits hour n = (1 ≤ n) × (n < 24)
Suits day n = (1 ≤ n) × (n < 30)
Suits month n = (1 ≤ n) × (n < 12)
Suits year n = 1 ≤ n

abbrev pub IsSuited : Relative → Type 0
IsSuited r = (n : ℤ) × (u : TimeUnit) × (r ≡ shown n u) × Suits u (abs n)

abs-negate : (n : ℕ) → abs (negate n) ≡ n
abs-negate zero = refl
abs-negate (suc n) = refl

div_positive : (a b : ℕ) → 0 < b → b ≤ a → 1 ≤ a / b
div_positive a b h le = (le-div_iff_mul-le h).1 (omega (arith, le))

-- Rounding a distance of one unit at least does not make it vanish.
abs-round_div : (x : ℤ) (b : ℕ) → 0 < b → b ≤ abs x → 1 ≤ abs (round_div x b)
unfolding round_div
abs-round_div (pos n) b h le =
    div_positive (2 * n + b) (2 * b) (omega (arith, h)) (omega (arith, le))
abs-round_div (negsuc n) b h le =
    rw (abs-negate ((2 * suc n + (b - 1)) / (2 * b)))
      (div_positive (2 * suc n + (b - 1)) (2 * b) (omega (arith, h)) (omega (arith, le, h)))

ltb-above : (a b : ℕ) → ltb a b ≡ false → b ≤ a
ltb-above a b h = ground arith

-- A distance is shown in its unit, or in the next one.
shown_or_next :
    (b : ℕ) (n : ℤ) (u : TimeUnit) (next : Relative)
    → (abs n < b → Suits u (abs n))
    → (b ≤ abs n → IsSuited next)
    → IsSuited (if ltb (abs n) b then shown n u else next)
shown_or_next b n u next here later = elim (Bool-cases (ltb (abs n) b)) [
  | inl e ↦ rw e (n, u, refl, here (ltb→lt (abs n) b e))
  | inr e ↦ rw e (later (ltb-above (abs n) b e))
]

from_months-IsSuited : (n : ℤ) → 1 ≤ abs n → IsSuited (from_months n)
unfolding from_months
from_months-IsSuited n h =
    shown_or_next 12 n month (shown (round_div n 12) year) (λ small. (h, small))
      (λ large. (round_div n 12, year, refl, abs-round_div n 12 (omega arith) large))

from_days-IsSuited : (n : ℤ) → 1 ≤ abs n → IsSuited (from_days n)
unfolding from_days
from_days-IsSuited n h =
    shown_or_next 30 n day (from_months (round_div n 30)) (λ small. (h, small))
      (λ large. from_months-IsSuited (round_div n 30) (abs-round_div n 30 (omega arith) large))

from_hours-IsSuited : (n : ℤ) → 1 ≤ abs n → IsSuited (from_hours n)
unfolding from_hours
from_hours-IsSuited n h =
    shown_or_next 24 n hour (from_days (round_div n 24)) (λ small. (h, small))
      (λ large. from_days-IsSuited (round_div n 24) (abs-round_div n 24 (omega arith) large))

from_minutes-IsSuited : (n : ℤ) → 1 ≤ abs n → IsSuited (from_minutes n)
unfolding from_minutes
from_minutes-IsSuited n h =
    shown_or_next 60 n minute (from_hours (round_div n 60)) (λ small. (h, small))
      (λ large. from_hours-IsSuited (round_div n 60) (abs-round_div n 60 (omega arith) large))

-- A relative time suits its unit: for every distance from now, in the past or to come, the number
-- that is shown is below 60 seconds, 60 minutes, 24 hours, 30 days or 12 months, and in every unit
-- but the second it is 1 at least, so that rounding never shows none of a unit.
pub format_relative_time-IsSuited : (ms : ℤ) → IsSuited (format_relative_time (some ms))
unfolding format_relative_time from_seconds
format_relative_time-IsSuited ms =
    let n = round_div ms 1000 in
    shown_or_next 60 n second (from_minutes (round_div n 60)) (λ small. small)
      (λ large. from_minutes-IsSuited (round_div n 60) (abs-round_div n 60 (omega arith) large))
