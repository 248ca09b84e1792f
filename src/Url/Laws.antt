-- ===== src/Url/Laws.antt =====
-- A query is read back as it was written, so no text of a user can add a parameter to a request or
-- change another one.
use poolx.Common.{
  ℕ, true, false, not, leb, List, [], ◌∷◌, ◌++◌, if◌then◌else◌, is_empty, filter, any, map, ◌==◌,
  nat_eq, ◌≡◌, refl, ap, arith, All, All-append,
}
use poolx.Common.Text.{Text, split, split_from, join}
use poolx.Url.{
  code_points, is_surrogate, utf8_all, form_byte, escape, query_bytes, query_part, search_params,
}
use poolx.Url.Reading.{read_text, cut, read_part, read_query}
use poolx.Url.Split.{Lacks, split-join}
use poolx.Url.Escaping.{
  IsWriter, IsPart, Bytes, form_byte-IsWritten, escape-IsPart, unescape-escape,
}
use poolx.Url.Encoding.{
  IsText, utf8_all-Bytes, read_utf8-utf8_all, text_of-code_points, code_points-IsPoint,
}

-- A text of sixteen bit units in which every half of a pair stands in a pair.
abbrev pub IsWellFormed : Text → Type 0
IsWellFormed s = IsText s × (any is_surrogate (code_points s) ≡ false)

replaced_same :
    (cs : List ℕ)
    → any is_surrogate cs ≡ false
    → map (λ c. if is_surrogate c then 0xfffd else c) cs ≡ cs
replaced_same [] h = refl
replaced_same (c ∷ cs) h = ground (arith, replaced_same cs)

query_bytes-IsWellFormed : (s : Text) → IsWellFormed s → query_bytes s ≡ utf8_all (code_points s)
unfolding query_bytes
query_bytes-IsWellFormed s h = ap utf8_all (replaced_same (code_points s) h.1)

pub Bytes-Bytes : (s : Text) → IsText s → Bytes (utf8_all (code_points s))
Bytes-Bytes s h = utf8_all-Bytes (code_points s) (code_points-IsPoint s h)

pub read_text-escape :
    (write : ℕ → Text)
    → IsWriter write
    → (s : Text) → IsText s
    → read_text (escape write (utf8_all (code_points s))) ≡ s
unfolding read_text
read_text-escape write w s h =
    rw
      (
        unescape-escape write w (utf8_all (code_points s)) (Bytes-Bytes s h),
        read_utf8-utf8_all (code_points s) (code_points-IsPoint s h),
      )
      (text_of-code_points s h)

pub cut-sep :
    (sep : ℕ) (s rest : Text)
    → Lacks sep s
    → (sep == sep) ≡ true
    → cut sep (s ++ sep ∷ rest) ≡ (s, rest)
unfolding cut
cut-sep sep [] rest h e = rw e refl
cut-sep sep (c ∷ s) rest (k, h) e = rw (k, cut-sep sep s rest h e) refl

pub cut-none : (sep : ℕ) (s : Text) → Lacks sep s → cut sep s ≡ (s, [])
unfolding cut
cut-none sep [] h = refl
cut-none sep (c ∷ s) (k, h) = rw (k, cut-none sep s h) refl

-- Parameters in which every text is well-formed.
abbrev pub AreWellFormed : List (Text × Text) → Type 0
AreWellFormed = All (λ (name, value). IsWellFormed name × IsWellFormed value)

written : (s : Text) → IsWellFormed s → IsPart (escape form_byte (query_bytes s))
written s h =
    rw (query_bytes-IsWellFormed s h)
      (escape-IsPart form_byte form_byte-IsWritten (utf8_all (code_points s)) (Bytes-Bytes s h.0))

read_text-written : (s : Text) → IsWellFormed s → read_text (escape form_byte (query_bytes s)) ≡ s
read_text-written s h =
    rw (query_bytes-IsWellFormed s h) (read_text-escape form_byte form_byte-IsWritten s h.0)

query_part-Lacks :
    (sep : ℕ) (p : Text × Text)
    → Lacks sep (escape form_byte (query_bytes p.0))
    → Lacks sep (escape form_byte (query_bytes p.1))
    → (b'=' == sep) ≡ false
    → Lacks sep (query_part p)
unfolding query_part
query_part-Lacks sep (name, value) h k e =
    All-append _ (escape form_byte (query_bytes name)) (b'=' ∷ escape form_byte (query_bytes value))
      h (e, k)

read_part-query_part :
    (p : Text × Text) → IsWellFormed p.0 → IsWellFormed p.1 → read_part (query_part p) ≡ p
unfolding query_part
read_part-query_part (name, value) h k =
    rw
      (
        cut-sep b'=' (escape form_byte (query_bytes name)) (escape form_byte (query_bytes value))
            (written name h).1.0 refl,
        read_text-written name h,
        read_text-written value k,
      )
      refl

pub is_empty-append : (s : Text) (c : ℕ) (t : Text) → is_empty (s ++ c ∷ t) ≡ false
is_empty-append [] c t = refl
is_empty-append (d ∷ s) c t = refl

pub is_empty-query_part : (p : Text × Text) → is_empty (query_part p) ≡ false
unfolding query_part
is_empty-query_part (name, value) =
    is_empty-append (escape form_byte (query_bytes name)) b'='
      (escape form_byte (query_bytes value))

read_parts :
    (params : List (Text × Text))
    → AreWellFormed params
    → map read_part (filter (λ p. not (is_empty p)) (map query_part params)) ≡ params
read_parts [] h = refl
read_parts (p ∷ params) ((h, k), hs) =
    rw (is_empty-query_part p, read_part-query_part p h k, read_parts params hs) refl

parts-Lacks :
    (params : List (Text × Text)) → AreWellFormed params → All (Lacks b'&') (map query_part params)
parts-Lacks [] h = tt
parts-Lacks (p ∷ params) ((h, k), hs) =
    (query_part-Lacks b'&' p (written p.0 h).0 (written p.1 k).0 refl, parts-Lacks params hs)

reads_nothing : read_query (search_params []) ≡ []
unfolding read_query search_params split split_from join
reads_nothing = refl

-- The parameters that `URLSearchParams` prints are read back, whatever their texts hold.
pub read_query-search_params :
    (params : List (Text × Text))
    → AreWellFormed params
    → read_query (search_params params) ≡ params
unfolding read_query search_params
read_query-search_params [] h = reads_nothing
read_query-search_params (p ∷ params) h =
    rw (split-join b'&' (query_part p) (map query_part params) (parts-Lacks (p ∷ params) h))
      (read_parts (p ∷ params) h)

IsText-test : (s : Text) → any (λ c. leb 0x10000 c) s ≡ false → IsText s
IsText-test [] h = tt
IsText-test (c ∷ s) h = (ground arith, IsText-test s (ground arith))

-- Well-formedness by tests that compute at concrete texts.
pub IsWellFormed-test :
    (s : Text)
    → any (λ c. leb 0x10000 c) s ≡ false
    → any is_surrogate (code_points s) ≡ false
    → IsWellFormed s
IsWellFormed-test s h k = (IsText-test s h, k)
