-- ===== src/Common/Number.antt =====
-- The decimal print of a number, `String(n)`, and that `Number.parseInt` reads it back.
use Prim.Native.Nat.{ℕ, zero, suc, ◌+◌, ◌-◌, ◌*◌, ◌/◌, ◌%◌, ◌<◌, ◌≤◌}
use mathlib.Core.Path.{◌≡◌, refl, sym, ap, ◌∙◌}
use mathlib.Core.Logic.{inl, inr}
use mathlib.Core.List.{[], ◌∷◌, ◌++◌, append_assoc, append-nil}
use mathlib.Core.Option.{Option, none, some}
use native.Mathlib.Omega.{arith}
use poolx.Common.Tests.{ltb, if◌then◌else◌, or_else, Bool-cases}
use poolx.Common.Equality.{nat_eq}
use poolx.Common.Lists.{length}
use poolx.Common.Text.{Text, trim_start, is_space}
use poolx.Common.Int.{ℤ, pos, negsuc, digits_from, parse_int}

-- The digits of a number, for a fuel above it.
unfoldable pub digits_with : ℕ → ℕ → Text
digits_with zero n = []
digits_with (suc fuel) n =
    let front = digits_with fuel (n / 10) in (if ltb n 10 then [] else front) ++ (48 + n % 10) ∷ []

unfoldable pub print : ℕ → Text
print n = digits_with (suc n) n

-- `String(z)` of a whole number.
unfoldable pub print_int : ℤ → Text
print_int (pos n) = print n
print_int (negsuc n) = b'-' ∷ print (suc n)

-- A digit extends the number read before it.
digits_from-digit :
    (value : Option ℕ) (d : ℕ) (s : Text)
    → d < 10
    → digits_from value ((48 + d) ∷ s) ≡ digits_from (some (or_else value 0 * 10 + d)) s
unfolding digits_from
digits_from-digit value d s h = let e : 48 + d - 48 ≡ d = omega arith in rw e (ground arith)

digits_from-digits_with :
    (fuel n : ℕ) (s : Text)
    → n < fuel
    → digits_from none (digits_with fuel n ++ s) ≡ digits_from (some n) s
unfolding digits_with
digits_from-digits_with zero n s h = absurd (omega arith)
digits_from-digits_with (suc fuel) n s h = elim (Bool-cases (ltb n 10)) [
  | inl small ↦
      rw (small, digits_from-digit none (n % 10) s (omega arith))
        (let e : 0 * 10 + n % 10 ≡ n = ground arith in rw e refl)
  | inr large ↦
      rw
        (
          large,
          append_assoc (digits_with fuel (n / 10)) ((48 + n % 10) ∷ []) s,
          digits_from-digits_with fuel (n / 10) ((48 + n % 10) ∷ s) (ground arith),
          digits_from-digit (some (n / 10)) (n % 10) s (omega arith),
        )
        (let e : n / 10 * 10 + n % 10 ≡ n = omega arith in rw e refl)
]

-- A text that begins with a digit.
abbrev pub BeginsWithDigit : Text → Type 0
BeginsWithDigit [] = ⊥
BeginsWithDigit (c ∷ s) = (48 ≤ c) × (c ≤ 57)

BeginsWithDigit-append : (s t : Text) → BeginsWithDigit s → BeginsWithDigit (s ++ t)
BeginsWithDigit-append [] t h = absurd h
BeginsWithDigit-append (c ∷ s) t h = h

digits_with-BeginsWithDigit : (fuel n : ℕ) → n < fuel → BeginsWithDigit (digits_with fuel n)
unfolding digits_with
digits_with-BeginsWithDigit zero n h = absurd (omega arith)
digits_with-BeginsWithDigit (suc fuel) n h = elim (Bool-cases (ltb n 10)) [
  | inl small ↦ rw small (omega arith, omega arith)
  | inr large ↦ rw large (
      BeginsWithDigit-append (digits_with fuel (n / 10)) ((48 + n % 10) ∷ [])
        (digits_with-BeginsWithDigit fuel (n / 10) (ground arith)))
]

pub print-BeginsWithDigit : (n : ℕ) → BeginsWithDigit (print n)
unfolding print
print-BeginsWithDigit n = digits_with-BeginsWithDigit (suc n) n (omega arith)

parse_int-digits :
    (s : Text) (n : ℕ)
    → BeginsWithDigit s
    → digits_from none s ≡ some n
    → parse_int s ≡ some (pos n)
unfolding parse_int trim_start is_space
parse_int-digits [] n h e = absurd h
parse_int-digits (c ∷ s) n h e = ground arith

-- `padStart(size, '0')` of a print: zeros before it up to that length.
abbrev pub zeros : ℕ → Text
zeros zero = []
zeros (suc k) = 48 ∷ zeros k

unfoldable pub pad_start : (value size : ℕ) → Text
unfolding print
pad_start value size = zeros (size - length (print value)) ++ print value

-- Zeros in front do not count.
digits_from-zero : (s : Text) → BeginsWithDigit s → digits_from (some 0) s ≡ digits_from none s
unfolding digits_from
digits_from-zero [] h = absurd h
digits_from-zero (c ∷ s) h = ground arith

zeros-BeginsWithDigit : (k : ℕ) (s : Text) → BeginsWithDigit s → BeginsWithDigit (zeros k ++ s)
zeros-BeginsWithDigit zero s h = h
zeros-BeginsWithDigit (suc k) s h = (omega arith, omega arith)

digits_from-zeros :
    (k : ℕ) (s : Text) → BeginsWithDigit s → digits_from none (zeros k ++ s) ≡ digits_from none s
digits_from-zeros zero s h = refl
digits_from-zeros (suc k) s h =
    digits_from-digit none 0 (zeros k ++ s) (omega arith)
    ∙ (digits_from-zero (zeros k ++ s) (zeros-BeginsWithDigit k s h) ∙ digits_from-zeros k s h)

-- A number is read back from its print.
pub parse_int-print : (n : ℕ) → parse_int (print n) ≡ some (pos n)
unfolding print digits_from
parse_int-print n =
    parse_int-digits (print n) n (digits_with-BeginsWithDigit (suc n) n (omega arith)) (
      ap (digits_from none) (sym (append-nil (print n)))
      ∙ digits_from-digits_with (suc n) n [] (omega arith))

digits_from-print : (n : ℕ) → digits_from none (print n) ≡ some n
unfolding print digits_from
digits_from-print n =
    ap (digits_from none) (sym (append-nil (print n)))
    ∙ digits_from-digits_with (suc n) n [] (omega arith)

-- A whole number is read back from its print, below zero too.
pub parse_int-print_int : (z : ℤ) → parse_int (print_int z) ≡ some z
unfolding print_int parse_int trim_start is_space
parse_int-print_int (pos n) = parse_int-print n
parse_int-print_int (negsuc n) = rw (digits_from-print (suc n)) refl

-- A number is read back from its print behind zeros.
pub parse_int-pad_start : (n size : ℕ) → parse_int (pad_start n size) ≡ some (pos n)
unfolding pad_start digits_from
parse_int-pad_start n size =
    let begins = digits_with-BeginsWithDigit (suc n) n (omega arith) in
    let k = size - length (print n) in
    parse_int-digits (zeros k ++ print n) n (zeros-BeginsWithDigit k (print n) begins) (
      digits_from-zeros k (print n) begins
      ∙ (ap (digits_from none) (sym (append-nil (print n)))
          ∙ digits_from-digits_with (suc n) n [] (omega arith)))
