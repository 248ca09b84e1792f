-- ===== src/Url/Escaping.antt =====
-- What is written for a byte is read back as that byte, and holds no separator of a URL.
use poolx.Common.{
  ℕ, ◌+◌, ◌*◌, ◌/◌, ◌%◌, ◌<◌, true, false, ◌&&◌, ◌||◌, List, [], ◌∷◌, ◌++◌, Option, some, any, leb,
  ltb, ◌==◌, nat_eq, ◌≡◌, refl, ap, ◌∙◌, arith, All, All-append, Bool-cases, inl, inr,
}
use poolx.Common.Text.{Text}
use poolx.Url.{hex_digit, percent, component_byte, form_byte, is_unescaped, is_alphanumeric, escape}
use poolx.Url.Reading.{hex_value, byte_of, percent_of, plain, unescape}
use poolx.Url.Split.{Lacks}

hex_value-hex_digit : (d : ℕ) → d < 16 → hex_value (hex_digit d) ≡ some d
hex_value-hex_digit d h = ground arith

pub unescape-plain :
    (c : ℕ) (s : Text) → (c == b'%') ≡ false → unescape (c ∷ s) ≡ plain c ∷ unescape s
unfolding unescape
unescape-plain c [] h = refl
unescape-plain c (d ∷ []) h = refl
unescape-plain c (d ∷ e ∷ s) h = rw (h, unescape) refl

unescape-some :
    (c d e b : ℕ) (s : Text) → percent_of c d e ≡ some b → unescape (c ∷ d ∷ e ∷ s) ≡ b ∷ unescape s
unfolding unescape
unescape-some c d e b s h = rw (h, unescape) refl

byte_of-some :
    (o p : Option ℕ) (h l : ℕ) → o ≡ some h → p ≡ some l → byte_of o p ≡ some (h * 16 + l)
byte_of-some o p h l e f = rw (e, f) refl

percent_of-percent :
    (b : ℕ) → b < 256 → percent_of b'%' (hex_digit (b / 16)) (hex_digit (b % 16)) ≡ some b
percent_of-percent b h =
    byte_of-some _ _ _ _ (hex_value-hex_digit (b / 16) (omega arith))
      (hex_value-hex_digit (b % 16) (omega arith))
    ∙ ap some (omega arith)

unescape-percent : (b : ℕ) (s : Text) → b < 256 → unescape (percent b ++ s) ≡ b ∷ unescape s
unfolding unescape
unescape-percent b s h =
    unescape-some b'%' (hex_digit (b / 16)) (hex_digit (b % 16)) b s (percent_of-percent b h)

-- What is written for a byte holds no character with a meaning in a query, and is read as the byte.
pub record IsWritten (write : ℕ → Text) (b : ℕ) : Type 0 where
  pub read : (s : Text) → unescape (write b ++ s) ≡ b ∷ unescape s
  pub no_amp : Lacks b'&' (write b)
  pub no_equals : Lacks b'=' (write b)
  pub no_mark : Lacks b'?' (write b)

percent-Lacks :
    (sep b : ℕ)
    → b < 256
    → (sep == b'%') ≡ false
    → ltb sep 48 || (leb 58 sep && ltb sep 65) ≡ true
    → Lacks sep (percent b)
percent-Lacks sep b h e k = (ground arith, (ground arith, (ground arith, tt)))

percent-IsWritten : (b : ℕ) → b < 256 → IsWritten percent b
percent-IsWritten b h = record {
  read = λ s. unescape-percent b s h;
  no_amp = percent-Lacks b'&' b h refl refl;
  no_equals = percent-Lacks b'=' b h refl refl;
  no_mark = percent-Lacks b'?' b h refl refl;
}

pub component_byte-IsWritten : (b : ℕ) → b < 256 → IsWritten component_byte b
unfolding component_byte
component_byte-IsWritten b h = elim (Bool-cases (is_unescaped b)) [
  | inl e ↦ record {
    read = λ s. rw e (unescape-plain b s (ground arith) ∙ ap (λ n. n ∷ unescape s) (ground arith));
    no_amp = rw e (ground arith, tt);
    no_equals = rw e (ground arith, tt);
    no_mark = rw e (ground arith, tt);
  }
  | inr e ↦
      let w = percent-IsWritten b h in
      record {
        read = λ s. rw e (w.read s);
        no_amp = rw e w.no_amp;
        no_equals = rw e w.no_equals;
        no_mark = rw e w.no_mark;
      }
]

pub form_byte-IsWritten : (b : ℕ) → b < 256 → IsWritten form_byte b
unfolding form_byte
form_byte-IsWritten b h =
    elim (Bool-cases (is_alphanumeric b || any (λ c. b == c) (42 ∷ 45 ∷ 46 ∷ 95 ∷ []))) [
      | inl e ↦ record {
        read =
            λ s. rw e (unescape-plain b s (ground arith) ∙ ap (λ n. n ∷ unescape s) (ground arith));
        no_amp = rw e (ground arith, tt);
        no_equals = rw e (ground arith, tt);
        no_mark = rw e (ground arith, tt);
      }
      | inr e ↦ elim (Bool-cases (b == 32)) [
        | inl f ↦ record {
          read =
              λ s. rw (e, f) (unescape-plain b'+' s refl ∙ ap (λ n. n ∷ unescape s) (ground arith));
          no_amp = rw (e, f) (refl, tt);
          no_equals = rw (e, f) (refl, tt);
          no_mark = rw (e, f) (refl, tt);
        }
        | inr f ↦
            let w = percent-IsWritten b h in
            record {
              read = λ s. rw (e, f) (w.read s);
              no_amp = rw (e, f) w.no_amp;
              no_equals = rw (e, f) w.no_equals;
              no_mark = rw (e, f) w.no_mark;
            }
      ]
    ]

abbrev pub IsWriter : (ℕ → Text) → Type 0
IsWriter write = (b : ℕ) → b < 256 → IsWritten write b

abbrev pub Bytes : List ℕ → Type 0
Bytes bs = All (λ b. b < 256) bs

-- A text without the separators of a URL.
abbrev pub IsPart : Text → Type 0
IsPart s = Lacks b'&' s × (Lacks b'=' s × Lacks b'?' s)

pub escape-IsPart :
    (write : ℕ → Text) → IsWriter write → (bs : List ℕ) → Bytes bs → IsPart (escape write bs)
unfolding escape
escape-IsPart write w [] h = (tt, (tt, tt))
escape-IsPart write w (b ∷ bs) (k, h) =
    let (x, (y, z)) = escape-IsPart write w bs h in
    let wb = w b k in
    (
      All-append _ (write b) (escape write bs) wb.no_amp x,
      (
        All-append _ (write b) (escape write bs) wb.no_equals y,
        All-append _ (write b) (escape write bs) wb.no_mark z,
      ),
    )

pub unescape-escape :
    (write : ℕ → Text) → IsWriter write → (bs : List ℕ) → Bytes bs → unescape (escape write bs) ≡ bs
unfolding escape unescape
unescape-escape write w [] h = refl
unescape-escape write w (b ∷ bs) (k, h) =
    (w b k).read (escape write bs) ∙ ap (λ l. b ∷ l) (unescape-escape write w bs h)
