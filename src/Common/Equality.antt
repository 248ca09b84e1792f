-- ===== src/Common/Equality.antt =====
-- The `===` of the source, for every type of keys that it is used at.
use Prim.Native.Nat.{ℕ}
use Prim.Native.String.{String}
use mathlib.Core.Path.{◌≡◌, refl}
use mathlib.Core.Logic.{◌↔◌}
use mathlib.Core.Bool.{Bool, true, false, ◌&&◌}
use mathlib.Core.List.{List, [], ◌∷◌}
use native.Mathlib.Omega.{arith}
use text.Mathlib.Text.{◌==◌ as str_beq}
use text.Mathlib.TextEquality.{eq_iff}
use poolx.Common.Tests.{nat_beq, nat_beq_iff}

-- A test on the values of a type that decides their equality.
pub record Eq {κ} (Key : Type κ) : Type κ where
  pub equals : Key → Key → Bool
  pub equals_iff : (left right : Key) → (equals left right ≡ true) ↔ (left ≡ right)

module _ {κ} {Key : Type κ} ⦃keys : Eq Key⦄ where
  infix 50 ◌==◌
  abbrev pub ◌==◌ : Key → Key → Bool
  left == right = keys.equals left right

  pub ==_refl : (key : Key) → (key == key) ≡ true
  ==_refl key = (keys.equals_iff key key).1 refl

  abbrev pub list_beq : List Key → List Key → Bool
  list_beq [] [] = true
  list_beq (x ∷ xs) (y ∷ ys) = x == y && list_beq xs ys
  list_beq _ _ = false

  pub list_beq_iff : (xs ys : List Key) → (list_beq xs ys ≡ true) ↔ (xs ≡ ys)
  list_beq_iff [] [] = ground arith
  list_beq_iff [] (y ∷ ys) = ground arith
  list_beq_iff (x ∷ xs) [] = ground arith
  list_beq_iff (x ∷ xs) (y ∷ ys) = ground (arith, list_beq_iff xs ys, keys.equals_iff x y)

instance abbrev pub nat_eq : Eq ℕ
nat_eq = record { equals = nat_beq; equals_iff = nat_beq_iff }

instance abbrev pub list_eq : Eq (List ℕ)
list_eq = record { equals = list_beq; equals_iff = list_beq_iff }

instance abbrev pub string_eq : Eq String
string_eq = record { equals = str_beq; equals_iff = eq_iff }
