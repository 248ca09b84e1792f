-- ===== src/Url/Paths.antt =====
-- The parameters of the paths that the requests are sent to.
use poolx.Common.{
  ℕ, suc, zero, ◌+◌, ◌/◌, ◌%◌, ◌<◌, ◌≤◌, Bool, ◌||◌, leb, true, false, List, [], ◌∷◌, ◌++◌, some,
  ltb, any, ◌==◌, nat_eq, ◌≡◌, refl, ap, ◌∙◌, arith, All, All-append, Bool-cases, inl, inr,
}
use poolx.Common.Text.{Text, split, split_from, join}
use poolx.Common.Number.{print, digits_with}
use poolx.Url.{code_points, utf8_all, component_byte, escape, encode_uri_component, search_params}
use poolx.Url.Reading.{unescape, read_utf8, text_of, read_text, read_query, read_url}
use poolx.Url.Split.{Lacks, split-join}
use poolx.Url.Escaping.{component_byte-IsWritten, escape-IsPart, unescape-plain}
use poolx.Url.Encoding.{read_utf8-first_0, lead_1, encode_unit}
use poolx.Url.Laws.{
  IsWellFormed, AreWellFormed, is_empty-append, read_text-escape, cut-sep, cut-none, Bytes-Bytes,
  read_query-search_params,
}

-- A test that computes at the texts of the source.
abbrev pub holds : ℕ → Text → Bool
holds sep s = any (λ c. c == sep) s

any-Lacks : (sep : ℕ) (s : Text) → holds sep s ≡ false → Lacks sep s
any-Lacks sep [] h = tt
any-Lacks sep (c ∷ s) h = (ground arith, any-Lacks sep s (ground arith))

Lacks-any : (sep : ℕ) (s : Text) → Lacks sep s → holds sep s ≡ false
Lacks-any sep [] h = refl
Lacks-any sep (c ∷ s) (k, h) = rw (k, Lacks-any sep s h) refl

parameters-none : (s : Text) → Lacks b'?' s → (read_url s).1 ≡ []
unfolding read_url read_query split split_from
parameters-none s h = rw (cut-none b'?' s h) refl

-- A path without a question mark has no parameters.
pub parameters_of_plain : (s : Text) → holds b'?' s ≡ false → (read_url s).1 ≡ []
parameters_of_plain s h = parameters-none s (any-Lacks b'?' s h)

abbrev pub IsDigit : ℕ → Type 0
IsDigit c = (48 ≤ c) × (c < 58)

digits_with-IsDigit : (fuel n : ℕ) → All IsDigit (digits_with fuel n)
unfolding digits_with
digits_with-IsDigit zero n = tt
digits_with-IsDigit (suc fuel) n = elim (Bool-cases (ltb n 10)) [
  | inl e ↦ rw e ((ground arith, ground arith), tt)
  | inr e ↦ rw e (
      All-append IsDigit (digits_with fuel (n / 10)) ((48 + n % 10) ∷ [])
        (digits_with-IsDigit fuel (n / 10)) ((omega arith, omega arith), tt))
]

pub print-IsDigit : (n : ℕ) → All IsDigit (print n)
unfolding print
print-IsDigit n = digits_with-IsDigit (suc n) n

pub digits-Lacks :
    (sep : ℕ) (s : Text) → ltb sep 48 || leb 58 sep ≡ true → All IsDigit s → Lacks sep s
digits-Lacks sep [] h k = tt
digits-Lacks sep (c ∷ s) h (k, ks) = (ground arith, digits-Lacks sep s h ks)

-- A path with a number in it.
pub parameters_of_id :
    (before : Text) (id : ℕ) (after : Text)
    → holds b'?' before ≡ false
    → holds b'?' after ≡ false
    → (read_url (before ++ (print id ++ after))).1 ≡ []
parameters_of_id before id after h k = parameters-none (before ++ (print id ++ after)) (
    All-append _ before (print id ++ after) (any-Lacks b'?' before h) (
      All-append _ (print id) after (digits-Lacks b'?' (print id) refl (print-IsDigit id))
        (any-Lacks b'?' after k)))

-- A path with the query of a list of parameters.
pub parameters_of_query :
    (route : Text) (params : List (Text × Text))
    → holds b'?' route ≡ false
    → AreWellFormed params
    → (read_url (route ++ b'?' ∷ search_params params)).1 ≡ params
unfolding read_url
parameters_of_query route params h w =
    rw (cut-sep b'?' route (search_params params) (any-Lacks b'?' route h) refl)
      (read_query-search_params params w)

-- A path with one parameter that is written by hand.
parameters_of_part :
    (route name value : Text)
    → holds b'?' route ≡ false
    → holds b'=' name ≡ false
    → holds b'&' name ≡ false
    → Lacks b'&' value
    → (read_url (route ++ b'?' ∷ (name ++ b'=' ∷ value))).1 ≡ (read_text name, read_text value) ∷ []
unfolding read_url read_query join
parameters_of_part route name value h e a k =
    let part = name ++ b'=' ∷ value in
    rw
      (
        cut-sep b'?' route part (any-Lacks b'?' route h) refl,
        split-join b'&' part []
            (All-append _ name (b'=' ∷ value) (any-Lacks b'&' name a) (refl, k), tt),
        is_empty-append name b'=' value,
        cut-sep b'=' name value (any-Lacks b'=' name e) refl,
      )
      refl

-- A text that `encodeURIComponent` writes.
pub parameters_of_component :
    (route name s : Text)
    → holds b'?' route ≡ false
    → holds b'=' name ≡ false
    → holds b'&' name ≡ false
    → read_text name ≡ name
    → IsWellFormed s
    → (e : Text) × (encode_uri_component s ≡ some e)
      × ((read_url (route ++ b'?' ∷ (name ++ b'=' ∷ e))).1 ≡ (name, s) ∷ [])
unfolding encode_uri_component
parameters_of_component route name s h e a n w =
    let written = escape component_byte (utf8_all (code_points s)) in
    (
      written,
      rw (w.1) refl,
      parameters_of_part route name written h e a
            (escape-IsPart component_byte component_byte-IsWritten (utf8_all (code_points s))
              (Bytes-Bytes s w.0)).0
          ∙ rw (n, read_text-escape component_byte component_byte-IsWritten s w.0) refl,
    )

unescape-digits : (s : Text) → All IsDigit s → unescape s ≡ s
unfolding unescape
unescape-digits [] h = refl
unescape-digits (c ∷ s) (k, h) =
    unescape-plain c s (ground arith) ∙ (rw (unescape-digits s h) (ap (λ n. n ∷ s) (ground arith)))

read_utf8-digits : (s : Text) → All IsDigit s → read_utf8 0 0 s ≡ s
unfolding read_utf8
read_utf8-digits [] h = refl
read_utf8-digits (c ∷ s) (k, h) =
    read_utf8-first_0 c 0 c s (lead_1 c (omega arith)) ∙ ap (λ l. c ∷ l) (read_utf8-digits s h)

text_of-digits : (s : Text) → All IsDigit s → text_of s ≡ s
unfolding text_of
text_of-digits [] h = refl
text_of-digits (c ∷ s) (k, h) =
    rw (encode_unit c (omega arith)) (ap (λ l. c ∷ l) (text_of-digits s h))

read_text-digits : (s : Text) → All IsDigit s → read_text s ≡ s
unfolding read_text
read_text-digits s h = rw (unescape-digits s h, read_utf8-digits s h) (text_of-digits s h)

-- A number that stands in a query.
pub parameters_of_number :
    (route name : Text) (n : ℕ)
    → holds b'?' route ≡ false
    → holds b'=' name ≡ false
    → holds b'&' name ≡ false
    → read_text name ≡ name
    → (read_url (route ++ b'?' ∷ (name ++ b'=' ∷ print n))).1 ≡ (name, print n) ∷ []
parameters_of_number route name n h e a r =
    let d = print-IsDigit n in
    parameters_of_part route name (print n) h e a (digits-Lacks b'&' (print n) refl d)
    ∙ rw (r, read_text-digits (print n) d) refl
