-- ===== src/Common/Text.antt =====
-- JavaScript texts as lists of UTF-16 code units, and the string methods that the source calls.
mod Trim
unfoldable pub use Trim.*
use Prim.Native.Char.{code}
use Prim.Native.Nat.{ℕ, zero, suc, ◌+◌, ◌-◌, ◌/◌, ◌%◌}
use Prim.Native.String.{String}
use mathlib.Core.Bool.{Bool, true, false, ◌&&◌, ◌||◌}
use mathlib.Core.List.{List, [], ◌∷◌, ◌++◌, map}
use poolx.Common.Tests.{leb, if◌then◌else◌}
use poolx.Common.Equality.{◌==◌, nat_eq}

-- The code units of one code point.
abbrev pub encode : ℕ → Text
encode c =
    if leb 0x10000 c
    then (0xd800 + (c - 0x10000) / 0x400) ∷ (0xdc00 + (c - 0x10000) % 0x400) ∷ []
    else c ∷ []

-- A literal of the source.
abbrev pub units : String → Text
units String.[] = []
units (String.◌∷◌ c s) = encode (code c) ++ units s

-- `s.startsWith(k)` and `s.includes(k)`.
unfoldable pub starts_with : Text → Text → Bool
starts_with s [] = true
starts_with [] (k ∷ ks) = false
starts_with (c ∷ s) (k ∷ ks) = c == k && starts_with s ks

unfoldable pub includes : Text → Text → Bool
includes [] k = starts_with [] k
includes (c ∷ s) k = starts_with (c ∷ s) k || includes s k

-- `s.split(',')`, with the part that is being read as an accumulator in reverse order.
unfoldable pub split_from : ℕ → Text → Text → List Text
split_from sep part [] = part ∷ []
split_from sep part (c ∷ s) = elim (c == sep) [
  | true ↦ part ∷ split_from sep [] s
  | false ↦ split_from sep (part ++ c ∷ []) s
]

unfoldable pub split : ℕ → Text → List Text
split sep s = split_from sep [] s

-- `parts.join(sep)`.
unfoldable pub join : Text → List Text → Text
join sep [] = []
join sep (p ∷ []) = p
join sep (p ∷ q ∷ ps) = p ++ (sep ++ join sep (q ∷ ps))
