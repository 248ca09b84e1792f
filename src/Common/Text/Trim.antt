-- ===== src/Common/Text/Trim.antt =====
-- `trim`, with the white space and line terminators of ECMAScript.
use Prim.Native.Nat.{ℕ}
use mathlib.Core.Path.{◌≡◌, refl, ap, ◌∙◌}
use mathlib.Core.Bool.{Bool, false, ◌&&◌, ◌||◌}
use mathlib.Core.List.{List, [], ◌∷◌}
use native.Mathlib.Omega.{arith}
use poolx.Common.Tests.{leb, if◌then◌else◌}
use poolx.Common.Equality.{◌==◌, nat_eq}
use poolx.Common.Lists.{is_empty}

abbrev pub Text : Type 0
Text = List ℕ

unfoldable pub is_space : ℕ → Bool
is_space c =
    (leb 9 c && leb c 13)
    || (c == 32 || c == 0xa0 || c == 0x1680 || (leb 0x2000 c && leb c 0x200a))
    || (c == 0x2028 || c == 0x2029 || c == 0x202f || c == 0x205f || c == 0x3000 || c == 0xfeff)

unfoldable pub trim_start : Text → Text
trim_start [] = []
trim_start (c ∷ s) = let rest = trim_start s in if is_space c then rest else c ∷ s

unfoldable pub trim_end : Text → Text
trim_end [] = []
trim_end (c ∷ s) = let rest = trim_end s in if is_space c && is_empty rest then [] else c ∷ rest

unfoldable pub trim : Text → Text
trim s = trim_end (trim_start s)

trim_end_idempotent : (s : Text) → trim_end (trim_end s) ≡ trim_end s
unfolding trim_end
trim_end_idempotent [] = refl
trim_end_idempotent (c ∷ s) = ground (arith, trim_end_idempotent s)

-- The first unit, if there is one, is no white space.
abbrev Starts : Text → Type 0
Starts [] = Unit
Starts (c ∷ s) = is_space c ≡ false

trim_start-Starts : (s : Text) → Starts (trim_start s)
unfolding trim_start
trim_start-Starts [] = tt
trim_start-Starts (c ∷ s) = ground (arith, trim_start-Starts s)

trim_start_of_Starts : (s : Text) → Starts s → trim_start s ≡ s
unfolding trim_start
trim_start_of_Starts [] h = refl
trim_start_of_Starts (c ∷ s) h = rw h

trim_end-Starts : (s : Text) → Starts s → Starts (trim_end s)
unfolding trim_end
trim_end-Starts [] h = tt
trim_end-Starts (c ∷ s) h = ground arith

-- A trimmed text is trimmed already.
pub trim_idempotent : (s : Text) → trim (trim s) ≡ trim s
unfolding trim
trim_idempotent s =
    ap trim_end (trim_start_of_Starts (trim s) (trim_end-Starts _ (trim_start-Starts s)))
    ∙ trim_end_idempotent (trim_start s)
