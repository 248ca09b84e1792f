-- ===== src/Nodes/Region/Detection/Laws.antt =====
-- What `detectRegion` returns for names with a flag, and for a keyword that hides another.
use mathlib.Core.List.{append_assoc}
use poolx.Common.{
  ℕ, ◌+◌, ◌-◌, ◌<◌, true, false, List, [], ◌∷◌, ◌++◌, Option, none, some, ◌==◌, leb, take, All, any,
  ◌≤◌, ◌/◌, ◌%◌, ◌≡◌, ◌≢◌, ◌⊎◌, refl, ap, ◌∙◌, arith, Bool-cases, inl, inr, drop,
}
use poolx.Common.Text.{Text, units, encode, includes, starts_with}
use poolx.Nodes.Region.Labels.{RegionLabel, region_eq, region_beq, region_beq_iff, india, indonesia}
use poolx.Nodes.Region.Keywords.{zh_keywords}
use poolx.Nodes.Region.Flags.{
  lookup_flag, flag_to_region, is_high, is_indicator, letter, code_points, find_flag,
  extract_flag_country,
}
use poolx.Nodes.Region.Detection.{first_keyword, flag_region, detect_region}

-- A code point that UTF-16 encodes.
abbrev pub IsScalar : ℕ → Type 0
IsScalar c = (c < 0x110000) × ((c < 0xd800) ⊎ (0xdfff < c))

abbrev pub encode_all : List ℕ → Text
encode_all [] = []
encode_all (c ∷ cs) = encode c ++ encode_all cs

code_points-cons : (c : ℕ) (s : Text) → is_high c ≡ false → code_points (c ∷ s) ≡ c ∷ code_points s
unfolding code_points
code_points-cons c [] h = refl
code_points-cons c (d ∷ s) h = rw h

code_points-pair :
    (c : ℕ) (s : Text)
    → 0x10000 ≤ c
    → c < 0x110000
    → code_points ((0xd800 + (c - 0x10000) / 0x400) ∷ (0xdc00 + (c - 0x10000) % 0x400) ∷ s)
      ≡ c ∷ code_points s
unfolding code_points
code_points-pair c s lo hi = ground arith

-- Decoding undoes the encoding of a code point.
code_points-encode :
    (c : ℕ) (s : Text) → IsScalar c → code_points (encode c ++ s) ≡ c ∷ code_points s
code_points-encode c s h = elim (Bool-cases (leb 0x10000 c)) [
  | inl astral ↦ rw astral (code_points-pair c s (ground arith) h.0)
  | inr basic ↦ rw basic (code_points-cons c s (ground arith))
]

code_points-encode_all :
    (cs : List ℕ) (s : Text)
    → All IsScalar cs
    → code_points (encode_all cs ++ s) ≡ cs ++ code_points s
code_points-encode_all [] s h = refl
code_points-encode_all (c ∷ cs) s (k, h) =
    ap code_points (append_assoc (encode c) (encode_all cs) s)
    ∙ (code_points-encode c (encode_all cs ++ s) k
        ∙ ap (λ l. c ∷ l) (code_points-encode_all cs s h))

find_flag-skip : (c : ℕ) (cs : List ℕ) → is_indicator c ≡ false → find_flag (c ∷ cs) ≡ find_flag cs
unfolding find_flag
find_flag-skip c [] h = refl
find_flag-skip c (d ∷ cs) h = rw h

find_flag-append :
    (cs : List ℕ) (a b : ℕ) (rest : List ℕ)
    → All (λ c. is_indicator c ≡ false) cs
    → is_indicator a ≡ true
    → is_indicator b ≡ true
    → find_flag (cs ++ (a ∷ b ∷ rest)) ≡ some (letter a ∷ letter b ∷ [])
unfolding find_flag
find_flag-append [] a b rest h p q = rw (p, q)
find_flag-append (c ∷ cs) a b rest (k, h) p q =
    find_flag-skip c (cs ++ (a ∷ b ∷ rest)) k ∙ find_flag-append cs a b rest h p q

-- A code point that may stand before the flag.
abbrev pub IsPlain : ℕ → Type 0
IsPlain c = IsScalar c × (is_indicator c ≡ false)

All-IsScalar : (cs : List ℕ) → All IsPlain cs → All IsScalar cs
All-IsScalar [] h = tt
All-IsScalar (c ∷ cs) (k, h) = (k.0, All-IsScalar cs h)

All-not_indicator : (cs : List ℕ) → All IsPlain cs → All (λ c. is_indicator c ≡ false) cs
All-not_indicator [] h = tt
All-not_indicator (c ∷ cs) (k, h) = (k.1, All-not_indicator cs h)

-- The flag emoji of a country, by the places of its two letters in the alphabet.
abbrev pub flag : ℕ → ℕ → Text
flag a b = encode (0x1f1e6 + a) ++ encode (0x1f1e6 + b)

letters-eq :
    (a b : ℕ)
    → ◌≡◌ {A = Option Text}
        (some (letter (0x1f1e6 + a) ∷ letter (0x1f1e6 + b) ∷ []))
        (some ((65 + a) ∷ (65 + b) ∷ []))
letters-eq a b = ground arith

flag_region-nil : flag_region [] ≡ none
unfolding flag_region extract_flag_country code_points find_flag
flag_region-nil = refl

detect_region_of_flag_region :
    (name : Text) (r : RegionLabel) → flag_region name ≡ some r → detect_region name ≡ r
unfolding detect_region
detect_region_of_flag_region [] r e = cc flag_region-nil
detect_region_of_flag_region (c ∷ s) r e = rw e

extract_flag_country-flag :
    (before : List ℕ) (a b : ℕ) (after : Text)
    → All IsPlain before
    → a < 26
    → b < 26
    → extract_flag_country (encode_all before ++ (flag a b ++ after))
      ≡ some ((65 + a) ∷ (65 + b) ∷ [])
unfolding extract_flag_country
extract_flag_country-flag before a b after h p q =
    let indicators =
      ap code_points (append_assoc (encode (0x1f1e6 + a)) (encode (0x1f1e6 + b)) after)
      ∙ (code_points-encode (0x1f1e6 + a) (encode (0x1f1e6 + b) ++ after)
            (omega arith, inr (omega arith))
          ∙ ap (λ l. (0x1f1e6 + a) ∷ l)
              (code_points-encode (0x1f1e6 + b) after (omega arith, inr (omega arith)))) in
    ap find_flag (
      code_points-encode_all before (flag a b ++ after) (All-IsScalar before h)
      ∙ ap (λ l. before ++ l) indicators)
    ∙ (find_flag-append before (0x1f1e6 + a) (0x1f1e6 + b) (code_points after)
          (All-not_indicator before h) (ground arith) (ground arith)
        ∙ letters-eq a b)

-- The first flag of a name decides its region, whatever words follow it: a name that begins with
-- code points that are no regional indicators, then holds the flag of a country that
-- `FLAG_TO_REGION` lists, and then anything.
pub detect_region-flag :
    (before : List ℕ) (a b : ℕ) (after : Text) (r : RegionLabel)
    → All IsPlain before
    → a < 26
    → b < 26
    → lookup_flag ((65 + a) ∷ (65 + b) ∷ []) flag_to_region ≡ some r
    → detect_region (encode_all before ++ (flag a b ++ after)) ≡ r
unfolding flag_region
detect_region-flag before a b after r h p q e =
    detect_region_of_flag_region _ r
      (rw (extract_flag_country-flag before a b after h p q, flag_region) e)

starts_with-append : (s k ext : Text) → starts_with s (k ++ ext) ≡ true → starts_with s k ≡ true
unfolding starts_with
starts_with-append s [] ext h = refl
starts_with-append [] (k ∷ ks) ext h = h
starts_with-append (c ∷ s) (k ∷ ks) ext h = ground (arith, starts_with-append s ks ext)

includes-append : (s k ext : Text) → includes s (k ++ ext) ≡ true → includes s k ≡ true
unfolding includes
includes-append [] k ext h = starts_with-append [] k ext h
includes-append (c ∷ s) k ext h =
    ground (arith, starts_with-append (c ∷ s) k ext, includes-append s k ext)

-- An entry that the name meets hides every label that only stands behind it.
first_keyword-hidden :
    (name keyword : Text) (r hidden : RegionLabel) (before after : List (Text × RegionLabel))
    → any (λ e. e.1 == hidden) before ≡ false
    → (r == hidden) ≡ false
    → includes name keyword ≡ true
    → (found : RegionLabel) × (first_keyword name (before ++ (keyword, r) ∷ after) ≡ some found)
      × ((found == hidden) ≡ false)
unfolding first_keyword
first_keyword-hidden name keyword r hidden [] after h n i = (r, rw i, n)
first_keyword-hidden name keyword r hidden ((k, s) ∷ before) after h n i =
    elim (Bool-cases (includes name k)) [
      | inl hit ↦ (s, rw hit, ground arith)
      | inr miss ↦
          rw miss (first_keyword-hidden name keyword r hidden before after (ground arith) n i)
    ]

zh_keywords-indonesia :
    (name : Text)
    → includes name (units "印度尼西亚") ≡ true
    → (found : RegionLabel) × (first_keyword name zh_keywords ≡ some found)
      × ((found == indonesia) ≡ false)
unfolding region_beq
zh_keywords-indonesia name h =
    first_keyword-hidden name (units "印度") india indonesia (take 25 zh_keywords)
      (drop 26 zh_keywords) refl refl (includes-append name (units "印度") (units "尼西亚") h)

-- A name without a listed flag that holds the keyword "印度尼西亚" of Indonesia is never assigned
-- to Indonesia.
pub detect_region-ne-indonesia :
    (name : Text)
    → flag_region name ≡ none
    → includes name (units "印度尼西亚") ≡ true
    → detect_region name ≢ indonesia
unfolding detect_region
detect_region-ne-indonesia [] f h e = cc
detect_region-ne-indonesia (c ∷ s) f h e =
    let (found, hit, differs) = zh_keywords-indonesia (c ∷ s) h in
    let same : found ≡ indonesia = rw (f, hit) at e in
    cc (differs, (region_beq_iff found indonesia).1 same)
