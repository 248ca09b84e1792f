-- ===== src/Url/Split.antt =====
-- Texts cut at one separator, and what is read back from them.
use mathlib.Core.List.{append-nil, append_assoc}
use poolx.Common.{ℕ, true, false, List, [], ◌∷◌, ◌++◌, ◌≡◌, refl, ap, ◌∙◌, arith, All, ◌==◌, nat_eq}
use poolx.Common.Text.{Text, split, split_from, join}

-- A text without this code unit.
abbrev pub Lacks : ℕ → Text → Type 0
Lacks sep s = All (λ c. (c == sep) ≡ false) s

module _ (sep : ℕ) where
  split_from-sep :
      (part s rest : Text)
      → Lacks sep s
      → (sep == sep) ≡ true
      → split_from sep part (s ++ sep ∷ rest) ≡ (part ++ s) ∷ split_from sep [] rest
  unfolding split_from
  split_from-sep part [] rest h e = rw (e, append-nil, split_from) refl
  split_from-sep part (c ∷ s) rest (k, h) e =
      rw (k, split_from)
        (split_from-sep (part ++ c ∷ []) s rest h e
          ∙ ap (λ l. l ∷ split_from sep [] rest) (append_assoc part (c ∷ []) s))

  split_from-last : (part s : Text) → Lacks sep s → split_from sep part s ≡ (part ++ s) ∷ []
  unfolding split_from
  split_from-last part [] h = rw append-nil refl
  split_from-last part (c ∷ s) (k, h) =
      rw (k, split_from)
        (split_from-last (part ++ c ∷ []) s h ∙ ap (λ l. l ∷ []) (append_assoc part (c ∷ []) s))

  -- The parts of a joined text, where no part holds the separator.
  pub split-join :
      (part : Text) (parts : List Text)
      → All (Lacks sep) (part ∷ parts)
      → split sep (join (sep ∷ []) (part ∷ parts)) ≡ part ∷ parts
  unfolding split join
  split-join part [] (h, _) = split_from-last [] part h
  split-join part (next ∷ parts) (h, hs) =
      split_from-sep [] part (join (sep ∷ []) (next ∷ parts)) h (ground arith)
      ∙ ap (λ l. part ∷ l) (split-join next parts hs)
