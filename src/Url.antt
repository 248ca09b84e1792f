-- ===== src/Url.antt =====
-- How the browser writes user texts into a URL: `encodeURIComponent` and the `toString` of
-- `URLSearchParams`, which the modules features/*/api call. Texts are UTF-16, and what is
-- written is the UTF-8 of their code points, with percent signs.
pub mod Split
pub mod Reading
pub mod Escaping
pub mod Encoding
pub mod Laws
pub mod Paths
use poolx.Common.{
  ℕ, ◌+◌, ◌-◌, ◌*◌, ◌/◌, ◌%◌, Bool, true, false, not, ◌&&◌, ◌||◌, List, [], ◌∷◌, ◌++◌, Option, none,
  some, if◌then◌else◌, any, leb, ltb, map, ◌==◌, nat_eq,
}
use poolx.Common.Text.{Text, units, join}

abbrev pub is_high : ℕ → Bool
is_high c = leb 0xd800 c && ltb c 0xdc00

abbrev pub is_low : ℕ → Bool
is_low c = leb 0xdc00 c && ltb c 0xe000

-- The code points of a text, after a first half of a pair that was read. A half that stands alone
-- stays as it is.
unfoldable pub points_from : Option ℕ → Text → List ℕ
points_from none [] = []
points_from (some h) [] = h ∷ []
points_from none (c ∷ s) = elim (is_high c) [
  | true ↦ points_from (some c) s
  | false ↦ c ∷ points_from none s
]
points_from (some h) (c ∷ s) = elim (is_low c) [
  | true ↦ (0x10000 + (h - 0xd800) * 0x400 + (c - 0xdc00)) ∷ points_from none s
  | false ↦ elim (is_high c) [
    | true ↦ h ∷ points_from (some c) s
    | false ↦ h ∷ c ∷ points_from none s
  ]
]

unfoldable pub code_points : Text → List ℕ
code_points s = points_from none s

abbrev pub is_surrogate : ℕ → Bool
is_surrogate c = leb 0xd800 c && ltb c 0xe000

-- The bytes of a code point in UTF-8.
unfoldable pub utf8 : ℕ → List ℕ
utf8 c =
    if ltb c 0x80
    then c ∷ []
    else if ltb c 0x800
    then (0xc0 + c / 64) ∷ (0x80 + c % 64) ∷ []
    else if ltb c 0x10000
    then (0xe0 + c / 4096) ∷ (0x80 + c / 64 % 64) ∷ (0x80 + c % 64) ∷ []
    else (0xf0 + c / 262144) ∷ (0x80 + c / 4096 % 64) ∷ (0x80 + c / 64 % 64) ∷ (0x80 + c % 64) ∷ []

unfoldable pub utf8_all : List ℕ → List ℕ
utf8_all [] = []
utf8_all (c ∷ cs) = utf8 c ++ utf8_all cs

abbrev pub hex_digit : ℕ → ℕ
hex_digit d = if ltb d 10 then 48 + d else 55 + d

abbrev pub percent : ℕ → Text
percent b = b'%' ∷ hex_digit (b / 16) ∷ hex_digit (b % 16) ∷ []

abbrev pub is_alphanumeric : ℕ → Bool
is_alphanumeric b = (leb 48 b && leb b 57) || (leb 65 b && leb b 90) || (leb 97 b && leb b 122)

-- What `encodeURIComponent` keeps beside letters and digits: - _ . ! ~ * ' ( )
abbrev pub is_unescaped : ℕ → Bool
is_unescaped b =
    is_alphanumeric b || any (λ c. b == c) (45 ∷ 95 ∷ 46 ∷ 33 ∷ 126 ∷ 42 ∷ 39 ∷ 40 ∷ 41 ∷ [])

unfoldable pub component_byte : ℕ → Text
component_byte b = if is_unescaped b then b ∷ [] else percent b

-- A query keeps * - . _ and writes a space as a plus sign.
unfoldable pub form_byte : ℕ → Text
form_byte b =
    if is_alphanumeric b || any (λ c. b == c) (42 ∷ 45 ∷ 46 ∷ 95 ∷ [])
    then b ∷ []
    else if b == 32
    then b'+' ∷ []
    else percent b

unfoldable pub escape : (ℕ → Text) → List ℕ → Text
escape write [] = []
escape write (b ∷ bs) = write b ++ escape write bs

-- `encodeURIComponent`, which throws a URIError at a half of a pair that stands alone.
unfoldable pub encode_uri_component : Text → Option Text
encode_uri_component s =
    let points = code_points s in
    if any is_surrogate points then none else some (escape component_byte (utf8_all points))

-- The bytes of a text in a query; a half of a pair that stands alone becomes U+FFFD.
unfoldable pub query_bytes : Text → List ℕ
query_bytes s = utf8_all (map (λ c. if is_surrogate c then 0xfffd else c) (code_points s))

unfoldable pub query_part : Text × Text → Text
query_part (name, value) =
    escape form_byte (query_bytes name) ++ b'=' ∷ escape form_byte (query_bytes value)

-- `new URLSearchParams(…).toString()`, for parameters of different names.
unfoldable pub search_params : List (Text × Text) → Text
search_params params = join (units "&") (map query_part params)
