-- ===== src/Dates/Stamp/Laws.antt =====
-- The parts of a date are read back from its text.
use poolx.Common.{
  ltb, leb, ◌||◌, true, ℕ, zero, suc, ◌+◌, ◌-◌, List, [], ◌∷◌, ◌++◌, Option, some, map, length, ◌≡◌,
  refl, arith, All, All-append, nat_eq,
}
use poolx.Common.Int.{ℤ, pos, negsuc, parse_int}
use poolx.Common.Number.{
  print, pad_start, zeros, print_int, parse_int-print_int, parse_int-pad_start, BeginsWithDigit,
  print-BeginsWithDigit,
}
use poolx.Common.Text.{Text}
use poolx.Dates.Stamp.{DateParts, pad, format_date_time_with_milliseconds}
use poolx.Url.Laws.{cut-sep}
use poolx.Url.Paths.{print-IsDigit, digits-Lacks, IsDigit}
use poolx.Url.Reading.{cut}
use poolx.Url.Split.{Lacks}

-- A text cut at each of these separators in turn.
unfoldable pub fields_of : List ℕ → Text → List Text
fields_of [] s = s ∷ []
fields_of (sep ∷ seps) s = let p = cut sep s in p.0 ∷ fields_of seps p.1

zeros-IsDigit : (k : ℕ) → All IsDigit (zeros k)
zeros-IsDigit zero = tt
zeros-IsDigit (suc k) = ((omega arith, omega arith), zeros-IsDigit k)

pad_start-IsDigit : (n size : ℕ) → All IsDigit (pad_start n size)
unfolding pad_start
pad_start-IsDigit n size =
    All-append IsDigit (zeros (size - length (print n))) (print n) (zeros-IsDigit _)
      (print-IsDigit n)

padded : (sep n size : ℕ) → ltb sep 48 || leb 58 sep ≡ true → Lacks sep (pad_start n size)
padded sep n size h = digits-Lacks sep (pad_start n size) h (pad_start-IsDigit n size)

-- A text whose units behind the first lack a separator.
abbrev LacksBehind : ℕ → Text → Type 0
LacksBehind sep [] = ⊥
LacksBehind sep (c ∷ s) = Lacks sep s

-- The text cut at the first minus behind its first unit, which may be the sign of the year.
unfoldable pub cut_year : Text → Text × Text
cut_year [] = ([], [])
cut_year (c ∷ s) = let p = cut b'-' s in (c ∷ p.0, p.1)

cut_year-minus : (s rest : Text) → LacksBehind b'-' s → cut_year (s ++ b'-' ∷ rest) ≡ (s, rest)
unfolding cut_year
cut_year-minus [] rest h = absurd h
cut_year-minus (c ∷ s) rest h = rw (cut-sep b'-' s rest h refl) refl

Lacks-behind : (sep : ℕ) (s : Text) → BeginsWithDigit s → Lacks sep s → LacksBehind sep s
Lacks-behind sep [] b h = b
Lacks-behind sep (c ∷ s) b h = h.1

year-LacksBehind : (year : ℤ) → LacksBehind b'-' (print_int year)
unfolding print_int
year-LacksBehind (pos n) =
    Lacks-behind b'-' (print n) (print-BeginsWithDigit n)
      (digits-Lacks b'-' (print n) refl (print-IsDigit n))
year-LacksBehind (negsuc n) = digits-Lacks b'-' (print (suc n)) refl (print-IsDigit (suc n))

-- - space : : . behind the year.
abbrev separators : List ℕ
separators = b'-' ∷ b' ' ∷ b':' ∷ b':' ∷ b'.' ∷ []

-- The seven fields of a text.
unfoldable pub fields_of_stamp : Text → List Text
fields_of_stamp s = let p = cut_year s in p.0 ∷ fields_of separators p.1

abbrev pub numbers_of : DateParts → List (Option ℤ)
numbers_of d =
    some d.full_year
    ∷ some (pos (d.month + 1))
    ∷ some (pos d.date)
    ∷ some (pos d.hours)
    ∷ some (pos d.minutes)
    ∷ some (pos d.seconds)
    ∷ some (pos d.milliseconds)
    ∷ []

-- The text of a date, cut behind its year and at the separators that follow, gives back the year,
-- also one below 0, the month from 1 on, the day and the time down to the millisecond as numbers, so
-- that two dates whose methods return different parts have different texts.
pub fields_of_stamp-format :
    (d : DateParts)
    → map parse_int (fields_of_stamp (format_date_time_with_milliseconds (some d))) ≡ numbers_of d
unfolding format_date_time_with_milliseconds fields_of_stamp fields_of
fields_of_stamp-format d =
    rw
      (
        cut_year-minus (print_int d.full_year) _ (year-LacksBehind d.full_year),
        cut-sep b'-' (pad (d.month + 1)) _ (padded b'-' (d.month + 1) 2 refl) refl,
        cut-sep b' ' (pad d.date) _ (padded b' ' d.date 2 refl) refl,
        cut-sep b':' (pad d.hours) _ (padded b':' d.hours 2 refl) refl,
        cut-sep b':' (pad d.minutes) _ (padded b':' d.minutes 2 refl) refl,
        cut-sep b'.' (pad d.seconds) _ (padded b'.' d.seconds 2 refl) refl,
        parse_int-print_int d.full_year,
        parse_int-pad_start (d.month + 1) 2,
        parse_int-pad_start d.date 2,
        parse_int-pad_start d.hours 2,
        parse_int-pad_start d.minutes 2,
        parse_int-pad_start d.seconds 2,
        parse_int-pad_start d.milliseconds 3,
      )
      refl
