-- ===== src/Dates.antt =====
-- server/web/lib/utils/date.ts: `formatRelativeTime`, up to the words of the browser. The argument is
-- the distance from now in milliseconds, none where the value is no date.
pub mod Laws
pub mod Stamp
use poolx.Common.{
  ℕ, zero, suc, ◌+◌, ◌-◌, ◌*◌, ◌/◌, Bool, true, false, Option, none, some, if◌then◌else◌, ltb,
}
use poolx.Common.Int.{ℤ, pos, negsuc, negate}

-- `Math.abs`.
abbrev pub abs : ℤ → ℕ
abs (pos n) = n
abs (negsuc n) = suc n

-- `Math.round(x / b)`: the nearest whole number, and the upper one of two.
unfoldable pub round_div : ℤ → ℕ → ℤ
round_div (pos n) b = pos ((2 * n + b) / (2 * b))
round_div (negsuc n) b = negate ((2 * suc n + (b - 1)) / (2 * b))

pub data TimeUnit : Type 0 where
  second minute hour day month year : TimeUnit

-- The text `—`, or a number of units for the formatter.
pub data Relative : Type 0 where
  dash : Relative
  shown : ℤ → TimeUnit → Relative

-- The end of the function, from each unit on.
unfoldable pub from_months : ℤ → Relative
from_months n = if ltb (abs n) 12 then shown n month else shown (round_div n 12) year

unfoldable pub from_days : ℤ → Relative
from_days n = if ltb (abs n) 30 then shown n day else from_months (round_div n 30)

unfoldable pub from_hours : ℤ → Relative
from_hours n = if ltb (abs n) 24 then shown n hour else from_days (round_div n 24)

unfoldable pub from_minutes : ℤ → Relative
from_minutes n = if ltb (abs n) 60 then shown n minute else from_hours (round_div n 60)

unfoldable pub from_seconds : ℤ → Relative
from_seconds n = if ltb (abs n) 60 then shown n second else from_minutes (round_div n 60)

unfoldable pub format_relative_time : Option ℤ → Relative
format_relative_time none = dash
format_relative_time (some ms) = from_seconds (round_div ms 1000)
