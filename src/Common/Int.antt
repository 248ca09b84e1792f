-- ===== src/Common/Int.antt =====
-- Whole numbers as the inputs of the console give them: `Number.parseInt(text, 10)`, for numbers
-- that a double holds exactly, and the tests of the source on the result.
use Prim.Native.Nat.{ℕ, zero, suc, ◌+◌, ◌-◌, ◌*◌}
use mathlib.Core.Bool.{Bool, true, false, ◌&&◌}
use mathlib.Core.List.{[], ◌∷◌}
use mathlib.Core.Option.{Option, none, some}
use poolx.Common.Tests.{leb, if◌then◌else◌, or_else}
use poolx.Common.Equality.{◌==◌, nat_eq}
use poolx.Common.Text.{Text, trim_start}

-- `negsuc n` is -(n + 1).
pub data ℤ : Type 0 where
  pos : ℕ → ℤ
  negsuc : ℕ → ℤ

abbrev pub negate : ℕ → ℤ
negate zero = pos 0
negate (suc n) = negsuc n

-- `n || other`, and `n > 0`.
abbrev pub or_zero : ℤ → ℤ → ℤ
or_zero (pos zero) other = other
or_zero (pos (suc n)) other = pos (suc n)
or_zero (negsuc n) other = negsuc n

abbrev pub is_positive : ℤ → Bool
is_positive (pos (suc n)) = true
is_positive _ = false

-- The number that the digits at the front spell, if there is one.
unfoldable pub digits_from : Option ℕ → Text → Option ℕ
digits_from value [] = value
digits_from value (c ∷ s) =
    let longer = digits_from (some (or_else value 0 * 10 + (c - b'0'))) s in
    if leb b'0' c && leb c b'9' then longer else value

abbrev signed : (ℕ → ℤ) → Option ℕ → Option ℤ
signed sign none = none
signed sign (some n) = some (sign n)

-- none is `NaN`.
unfoldable pub parse_int : Text → Option ℤ
parse_int s = elim (trim_start s) [
  | [] ↦ none
  | c ∷ rest ↦
      if c == b'-'
      then signed negate (digits_from none rest)
      else if c == b'+'
      then signed pos (digits_from none rest)
      else signed pos (digits_from none (c ∷ rest))
]

-- `Number.parseInt(text, 10) || 0`.
abbrev pub parse_or_zero : Text → ℤ
parse_or_zero s = or_else (parse_int s) (pos 0)
