-- ===== src/Url/Reading.antt =====
-- The reader of a query that the URL standard describes, as an independent description of what
-- `encodeURIComponent` and `URLSearchParams` write: percent signs, plus signs, UTF-8 and UTF-16.
use poolx.Common.{
  ℕ, zero, suc, ◌+◌, ◌-◌, ◌*◌, not, ◌&&◌, List, [], ◌∷◌, ◌++◌, Option, none, some, if◌then◌else◌,
  is_empty, filter, leb, ltb, map, ◌==◌, nat_eq,
}
use poolx.Common.Text.{Text, encode, split}

abbrev pub hex_value : ℕ → Option ℕ
hex_value c =
    if leb 48 c && leb c 57
    then some (c - 48)
    else if leb 65 c && leb c 70
    then some (c - 55)
    else if leb 97 c && leb c 102
    then some (c - 87)
    else none

abbrev pub byte_of : Option ℕ → Option ℕ → Option ℕ
byte_of (some high) (some low) = some (high * 16 + low)
byte_of _ _ = none

-- The byte of a percent sign and two digits.
abbrev pub percent_of : ℕ → ℕ → ℕ → Option ℕ
percent_of c d e = if c == b'%' then byte_of (hex_value d) (hex_value e) else none

abbrev pub plain : ℕ → ℕ
plain c = if c == b'+' then 32 else c

unfoldable pub unescape : Text → List ℕ
unescape [] = []
unescape (c ∷ []) = plain c ∷ []
unescape (c ∷ d ∷ []) = plain c ∷ plain d ∷ []
unescape (c ∷ d ∷ e ∷ s) = elim (percent_of c d e) [
  | some b ↦ b ∷ unescape s
  | none ↦ plain c ∷ unescape (d ∷ e ∷ s)
]

-- The bits of a first byte, and how many bytes follow it.
abbrev pub lead : ℕ → ℕ × ℕ
lead a =
    if ltb a 0x80
    then (a, 0)
    else if ltb a 0xe0
    then (a - 0xc0, 1)
    else if ltb a 0xf0
    then (a - 0xe0, 2)
    else (a - 0xf0, 3)

-- The code points of bytes, while a number of bytes is missing of the one that is read.
unfoldable pub read_utf8 : (missing value : ℕ) → List ℕ → List ℕ
read_utf8 missing value [] = []
read_utf8 zero value (a ∷ s) = elim (lead a).1 [
  | zero ↦ (lead a).0 ∷ read_utf8 0 0 s
  | suc k ↦ read_utf8 (suc k) (lead a).0 s
]
read_utf8 (suc zero) value (a ∷ s) = (value * 64 + (a - 0x80)) ∷ read_utf8 0 0 s
read_utf8 (suc (suc k)) value (a ∷ s) = read_utf8 (suc k) (value * 64 + (a - 0x80)) s

unfoldable pub text_of : List ℕ → Text
text_of [] = []
text_of (c ∷ cs) = encode c ++ text_of cs

unfoldable pub read_text : Text → Text
read_text s = text_of (read_utf8 0 0 (unescape s))

-- A text up to the first separator, and what follows it.
unfoldable pub cut : ℕ → Text → Text × Text
cut sep [] = ([], [])
cut sep (c ∷ s) = let rest = cut sep s in if c == sep then ([], s) else (c ∷ rest.0, rest.1)

abbrev pub read_part : Text → Text × Text
read_part part = let p = cut b'=' part in (read_text p.0, read_text p.1)

unfoldable pub read_query : Text → List (Text × Text)
read_query query = map read_part (filter (λ p. not (is_empty p)) (split b'&' query))

-- The path of a URL, and the parameters of its query.
unfoldable pub read_url : Text → Text × List (Text × Text)
read_url url = let p = cut b'?' url in (p.0, read_query p.1)
