-- ===== src/Nodes/Tags/Laws.antt =====
-- Reading back the tags after a preset was added.
use mathlib.Core.List.{append-nil, append_assoc}
use poolx.Common.{
  false, not, List, [], ◌∷◌, ◌++◌, map, filter, if◌then◌else◌, is_empty, list_eq, nat_eq, ◌==◌, All,
  ◌≡◌, refl, ap, ◌∙◌, arith, Bool-cases, inl, inr, All-append,
}
use poolx.Common.Text.{
  Text, units, split, split_from, join, trim, trim_idempotent, trim_start, trim_end, is_space,
}
use poolx.Common.Unique.{contains}
use poolx.Nodes.Tags.{parse_tags, add_preset_tag}

abbrev NoComma : Text → Type 0
NoComma s = All (λ c. (c == b',') ≡ false) s

-- A tag that reading keeps as it is.
abbrev pub IsTag : Text → Type 0
IsTag t = NoComma t × (trim t ≡ t) × (is_empty t ≡ false)

split_from-NoComma : (part s : Text) → NoComma part → All NoComma (split_from b',' part s)
unfolding split_from
split_from-NoComma part [] h = (h, tt)
split_from-NoComma part (c ∷ s) h = elim (Bool-cases (c == b',')) [
  | inl comma ↦ rw (comma, split_from, All) (h, split_from-NoComma [] s tt)
  | inr other ↦
      rw (other, split_from, All)
        (split_from-NoComma (part ++ c ∷ []) s (All-append _ part (c ∷ []) h (other, tt)))
]

trim_start-NoComma : (s : Text) → NoComma s → NoComma (trim_start s)
unfolding trim_start
trim_start-NoComma [] h = tt
trim_start-NoComma (c ∷ s) (k, h) = ground (arith, trim_start-NoComma s h)

trim_end-NoComma : (s : Text) → NoComma s → NoComma (trim_end s)
unfolding trim_end
trim_end-NoComma [] h = tt
trim_end-NoComma (c ∷ s) (k, h) = ground (arith, trim_end-NoComma s h)

trim-NoComma : (s : Text) → NoComma s → NoComma (trim s)
unfolding trim
trim-NoComma s h = trim_end-NoComma _ (trim_start-NoComma s h)

tags-IsTag :
    (parts : List Text)
    → All NoComma parts
    → All IsTag (filter (λ t. not (is_empty t)) (map trim parts))
tags-IsTag [] h = tt
tags-IsTag (p ∷ parts) (k, h) = elim (Bool-cases (is_empty (trim p))) [
  | inl blank ↦ rw blank (tags-IsTag parts h)
  | inr kept ↦ rw kept ((trim-NoComma p k, trim_idempotent p, kept), tags-IsTag parts h)
]

parse_tags-IsTag : (text : Text) → All IsTag (parse_tags text)
unfolding parse_tags split
parse_tags-IsTag text = tags-IsTag _ (split_from-NoComma [] text tt)

split_from-comma :
    (part s rest : Text)
    → NoComma s
    → split_from b',' part (s ++ b',' ∷ rest) ≡ (part ++ s) ∷ split_from b',' [] rest
unfolding split_from
split_from-comma part [] rest h = rw append-nil refl
split_from-comma part (c ∷ s) rest (k, h) =
    rw (k, split_from)
      (split_from-comma (part ++ c ∷ []) s rest h
        ∙ ap (λ l. l ∷ split_from b',' [] rest) (append_assoc part (c ∷ []) s))

split_from-last : (part s : Text) → NoComma s → split_from b',' part s ≡ (part ++ s) ∷ []
unfolding split_from
split_from-last part [] h = rw append-nil refl
split_from-last part (c ∷ s) (k, h) =
    rw (k, split_from)
      (split_from-last (part ++ c ∷ []) s h ∙ ap (λ l. l ∷ []) (append_assoc part (c ∷ []) s))

-- The parts of a joined text: the first tag, and each later one with a space in front.
abbrev spaced : List Text → List Text
spaced [] = []
spaced (t ∷ ts) = (32 ∷ t) ∷ spaced ts

split_from-space : (s : Text) → split_from b',' [] (32 ∷ s) ≡ split_from b',' (32 ∷ []) s
unfolding split_from
split_from-space s = refl

split_from-join :
    (part t : Text) (ts : List Text)
    → All IsTag (t ∷ ts)
    → split_from b',' part (join (units ", ") (t ∷ ts)) ≡ (part ++ t) ∷ spaced ts
unfolding join
split_from-join part t [] (h, _) = split_from-last part t h.0
split_from-join part t (u ∷ ts) (h, hs) =
    split_from-comma part t (32 ∷ join (units ", ") (u ∷ ts)) h.0
    ∙ ap (λ l. (part ++ t) ∷ l)
        (split_from-space (join (units ", ") (u ∷ ts)) ∙ split_from-join (32 ∷ []) u ts hs)

read-tag :
    (t : Text) (rest : List Text)
    → IsTag t
    → filter (λ t. not (is_empty t)) (trim t ∷ rest) ≡ t ∷ filter (λ t. not (is_empty t)) rest
read-tag t rest (n, e, k) = rw (e, k) refl

trim-space : (t : Text) → trim (32 ∷ t) ≡ trim t
unfolding trim trim_start is_space
trim-space t = refl

read-spaced :
    (ts : List Text) → All IsTag ts → filter (λ t. not (is_empty t)) (map trim (spaced ts)) ≡ ts
read-spaced [] h = refl
read-spaced (t ∷ ts) (k, h) =
    rw trim-space (read-tag t (map trim (spaced ts)) k ∙ ap (λ l. t ∷ l) (read-spaced ts h))

parse_tags-join_nil : parse_tags (join (units ", ") []) ≡ []
unfolding parse_tags split split_from join trim trim_start trim_end
parse_tags-join_nil = refl

-- Tags that are joined by a comma and a space are read back as they were.
parse_tags-join : (ts : List Text) → All IsTag ts → parse_tags (join (units ", ") ts) ≡ ts
unfolding parse_tags split
parse_tags-join [] h = parse_tags-join_nil
parse_tags-join (t ∷ ts) (k, h) =
    ap (λ l. filter (λ t. not (is_empty t)) (map trim l)) (split_from-join [] t ts (k, h))
    ∙ (read-tag t (map trim (spaced ts)) k ∙ ap (λ l. t ∷ l) (read-spaced ts h))

-- After a preset was added, the input is read as the tags that it held before, followed by the
-- preset unless it was among them; this holds whatever the input was, for a preset that has no
-- comma, is trimmed and is not empty.
pub parse_tags-add_preset_tag :
    (tags_input preset : Text)
    → IsTag preset
    → parse_tags (add_preset_tag tags_input preset) ≡ (
        if contains (parse_tags tags_input) preset
        then parse_tags tags_input
        else parse_tags tags_input ++ preset ∷ [])
unfolding add_preset_tag
parse_tags-add_preset_tag tags_input preset h =
    elim (Bool-cases (contains (parse_tags tags_input) preset)) [
      | inl old ↦ rw old refl
      | inr new ↦ rw new (
          parse_tags-join (parse_tags tags_input ++ preset ∷ []) (
            All-append IsTag (parse_tags tags_input) (preset ∷ []) (parse_tags-IsTag tags_input)
              (h, tt)))
    ]
