-- ===== src/Auth/Forms/Reset/Laws.antt =====
-- The button that copies the new password again.
use poolx.Common.{Bool, true, false, [], ◌∷◌, ◌++◌, ◌≡◌, refl, ap, ◌∙◌, All, is_empty, ◌==◌, nat_eq}
use mathlib.Core.List.{append_assoc, append-nil}
use poolx.Common.Text.{Text, split, split_from}
use poolx.Auth.Forms.Reset.{copy, confirmed, copy_again, colon}

split_from-whole :
    (part s : Text) → All (λ c. (c == colon) ≡ false) s → split_from colon part s ≡ (part ++ s) ∷ []
unfolding split_from
split_from-whole part [] h = rw (append-nil part) refl
split_from-whole part (c ∷ s) (e, h) =
    rw (e, split_from)
      (split_from-whole (part ++ c ∷ []) s h ∙ ap (λ t. t ∷ []) (append_assoc part (c ∷ []) s))

-- The second button copies what the first one did: whether or not the clipboard took the new
-- password, the message that is shown gives it back, where it is not empty and no unit of it is the
-- colon that stands before it in the message.
pub copy_again-confirmed :
    (copied : Bool) (password : Text)
    → is_empty password ≡ false
    → All (λ c. (c == colon) ≡ false) password
    → copy_again (confirmed copied password) ≡ copy password ∷ []
unfolding copy_again confirmed split split_from
copy_again-confirmed true password full h = rw (split_from-whole [] password h, full) refl
copy_again-confirmed false password full h = rw (split_from-whole [] password h, full) refl
