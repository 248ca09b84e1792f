-- ===== src/Url/Encoding.antt =====
-- Code points are read back from their UTF-8, and texts from their code points.
use poolx.Common.{
  ℕ, suc, ◌+◌, ◌-◌, ◌*◌, ◌/◌, ◌%◌, ◌<◌, true, List, [], ◌∷◌, ◌++◌, Option, none, some, ltb, nat_eq,
  ◌≡◌, refl, ap, ◌∙◌, arith, All, All-append, Bool-cases, inl, inr, ltb→lt,
}
use poolx.Common.Text.{Text, encode}
use poolx.Url.{points_from, code_points, is_high, is_low, utf8, utf8_all}
use poolx.Url.Reading.{lead, read_utf8, text_of}
use poolx.Url.Escaping.{Bytes}

abbrev pub IsPoint : ℕ → Type 0
IsPoint c = c < 0x110000

utf8-Bytes : (c : ℕ) → IsPoint c → Bytes (utf8 c)
unfolding utf8
utf8-Bytes c h = elim (Bool-cases (ltb c 0x80)) [
  | inl e ↦ rw e (ground arith, tt)
  | inr e ↦ elim (Bool-cases (ltb c 0x800)) [
    | inl f ↦ rw (e, f) (ground arith, (omega arith, tt))
    | inr f ↦ elim (Bool-cases (ltb c 0x10000)) [
      | inl g ↦ rw (e, f, g) (ground arith, (omega arith, (omega arith, tt)))
      | inr g ↦ rw (e, f, g) (omega arith, (omega arith, (omega arith, (omega arith, tt))))
    ]
  ]
]

pub utf8_all-Bytes : (cs : List ℕ) → All IsPoint cs → Bytes (utf8_all cs)
unfolding utf8_all
utf8_all-Bytes [] h = tt
utf8_all-Bytes (c ∷ cs) (k, h) =
    All-append _ (utf8 c) (utf8_all cs) (utf8-Bytes c k) (utf8_all-Bytes cs h)

-- The first byte of a code point.
pub lead_1 : (c : ℕ) → c < 0x80 → lead c ≡ (c, 0)
lead_1 c h = ground arith

lead_2 : (x : ℕ) → x < 32 → lead (0xc0 + x) ≡ (x, 1)
lead_2 x h = ground arith

lead_3 : (x : ℕ) → x < 16 → lead (0xe0 + x) ≡ (x, 2)
lead_3 x h = ground arith

lead_4 : (x : ℕ) → x < 8 → lead (0xf0 + x) ≡ (x, 3)
lead_4 x h = ground arith

pub read_utf8-first_0 :
    (a v x : ℕ) (s : List ℕ) → lead a ≡ (x, 0) → read_utf8 0 v (a ∷ s) ≡ x ∷ read_utf8 0 0 s
unfolding read_utf8
read_utf8-first_0 a v x s h = rw (h, read_utf8) (ap (λ p. p.0 ∷ read_utf8 0 0 s) h)

read_utf8-first :
    (a v x k : ℕ) (s : List ℕ) → lead a ≡ (x, suc k) → read_utf8 0 v (a ∷ s) ≡ read_utf8 (suc k) x s
unfolding read_utf8
read_utf8-first a v x k s h = rw (h, read_utf8) (ap (λ p. read_utf8 (suc k) p.0 s) h)

read_utf8-last_1 :
    (c : ℕ) (s : List ℕ) → read_utf8 1 (c / 64) ((0x80 + c % 64) ∷ s) ≡ c ∷ read_utf8 0 0 s
unfolding read_utf8
read_utf8-last_1 c s = ap (λ n. n ∷ read_utf8 0 0 s) (omega arith)

read_utf8-last_2 :
    (c : ℕ) (s : List ℕ)
    → read_utf8 2 (c / 4096) ((0x80 + c / 64 % 64) ∷ (0x80 + c % 64) ∷ s) ≡ c ∷ read_utf8 0 0 s
unfolding read_utf8
read_utf8-last_2 c s = ap (λ n. n ∷ read_utf8 0 0 s) (omega arith)

read_utf8-last_3 :
    (c : ℕ) (s : List ℕ)
    → read_utf8 3 (c / 262144) ((0x80 + c / 4096 % 64) ∷ (0x80 + c / 64 % 64) ∷ (0x80 + c % 64) ∷ s)
      ≡ c ∷ read_utf8 0 0 s
unfolding read_utf8
read_utf8-last_3 c s = ap (λ n. n ∷ read_utf8 0 0 s) (omega arith)

read_utf8-utf8 :
    (c : ℕ) (s : List ℕ) → IsPoint c → read_utf8 0 0 (utf8 c ++ s) ≡ c ∷ read_utf8 0 0 s
unfolding utf8
read_utf8-utf8 c s h = elim (Bool-cases (ltb c 0x80)) [
  | inl e ↦ rw e (read_utf8-first_0 c 0 c s (lead_1 c (ltb→lt c 0x80 e)))
  | inr e ↦ elim (Bool-cases (ltb c 0x800)) [
    | inl f ↦
        rw (e, f)
          (read_utf8-first (0xc0 + c / 64) 0 (c / 64) 0 _ (lead_2 (c / 64) (ground arith))
            ∙ read_utf8-last_1 c s)
    | inr f ↦ elim (Bool-cases (ltb c 0x10000)) [
      | inl g ↦
          rw (e, f, g)
            (read_utf8-first (0xe0 + c / 4096) 0 (c / 4096) 1 _ (lead_3 (c / 4096) (ground arith))
              ∙ read_utf8-last_2 c s)
      | inr g ↦
          rw (e, f, g)
            (read_utf8-first (0xf0 + c / 262144) 0 (c / 262144) 2 _
                (lead_4 (c / 262144) (omega arith))
              ∙ read_utf8-last_3 c s)
    ]
  ]
]

pub read_utf8-utf8_all : (cs : List ℕ) → All IsPoint cs → read_utf8 0 0 (utf8_all cs) ≡ cs
unfolding utf8_all read_utf8
read_utf8-utf8_all [] h = refl
read_utf8-utf8_all (c ∷ cs) (k, h) =
    read_utf8-utf8 c (utf8_all cs) k ∙ ap (λ l. c ∷ l) (read_utf8-utf8_all cs h)

-- The code units of a text are numbers of sixteen bits.
abbrev pub IsText : Text → Type 0
IsText s = All (λ c. c < 0x10000) s

pub encode_unit : (c : ℕ) → c < 0x10000 → encode c ≡ c ∷ []
encode_unit c h = ground arith

encode_pair :
    (h c : ℕ)
    → is_high h ≡ true
    → is_low c ≡ true
    → encode (0x10000 + (h - 0xd800) * 0x400 + (c - 0xdc00)) ≡ h ∷ c ∷ []
encode_pair h c p q = ground arith

-- The half of a pair that was read before a text.
abbrev half : Option ℕ → Text
half none = []
half (some h) = h ∷ []

abbrev IsHalf : Option ℕ → Type 0
IsHalf none = Unit
IsHalf (some h) = is_high h ≡ true

text_of-points_from :
    (o : Option ℕ) (s : Text) → IsHalf o → IsText s → text_of (points_from o s) ≡ half o ++ s
unfolding text_of points_from
text_of-points_from none [] p h = refl
text_of-points_from (some x) [] p h = rw (encode_unit x (ground arith)) refl
text_of-points_from none (c ∷ s) p (k, h) = elim (Bool-cases (is_high c)) [
  | inl e ↦ rw (e, points_from) (text_of-points_from (some c) s e h)
  | inr e ↦ rw (e, points_from, encode_unit c k) (ap (λ l. c ∷ l) (text_of-points_from none s tt h))
]
text_of-points_from (some x) (c ∷ s) p (k, h) = elim (Bool-cases (is_low c)) [
  | inl e ↦
      rw (e, points_from, encode_pair x c p e)
        (ap (λ l. x ∷ c ∷ l) (text_of-points_from none s tt h))
  | inr e ↦ elim (Bool-cases (is_high c)) [
    | inl f ↦
        rw (e, f, points_from, encode_unit x (ground arith))
          (ap (λ l. x ∷ l) (text_of-points_from (some c) s f h))
    | inr f ↦
        rw (e, f, points_from, encode_unit x (ground arith), encode_unit c k)
          (ap (λ l. x ∷ c ∷ l) (text_of-points_from none s tt h))
  ]
]

-- A text is read back from its code points.
pub text_of-code_points : (s : Text) → IsText s → text_of (code_points s) ≡ s
unfolding code_points
text_of-code_points s h = text_of-points_from none s tt h

points_from-IsPoint :
    (o : Option ℕ) (s : Text) → IsHalf o → IsText s → All IsPoint (points_from o s)
unfolding points_from
points_from-IsPoint none [] p h = tt
points_from-IsPoint (some x) [] p h = (ground arith, tt)
points_from-IsPoint none (c ∷ s) p (k, h) = elim (Bool-cases (is_high c)) [
  | inl e ↦ rw (e, points_from) (points_from-IsPoint (some c) s e h)
  | inr e ↦ rw (e, points_from, All) (omega arith, points_from-IsPoint none s tt h)
]
points_from-IsPoint (some x) (c ∷ s) p (k, h) = elim (Bool-cases (is_low c)) [
  | inl e ↦ rw (e, points_from, All) (ground arith, points_from-IsPoint none s tt h)
  | inr e ↦ elim (Bool-cases (is_high c)) [
    | inl f ↦ rw (e, f, points_from, All) (ground arith, points_from-IsPoint (some c) s f h)
    | inr f ↦
        rw (e, f, points_from, All) (ground arith, (omega arith, points_from-IsPoint none s tt h))
  ]
]

pub code_points-IsPoint : (s : Text) → IsText s → All IsPoint (code_points s)
unfolding code_points
code_points-IsPoint s h = points_from-IsPoint none s tt h
