-- ===== src/Common/Unique.antt =====
-- Lists as JavaScript sets: `new Set(xs)`, `has`, and the selection that the pages toggle.
use mathlib.Core.Path.{◌≡◌, refl}
use mathlib.Core.Bool.{Bool, true, false, not, ◌&&◌, ◌||◌}
use mathlib.Core.List.{List, [], ◌∷◌, ◌++◌}
use native.Mathlib.Omega.{arith}
use poolx.Common.Tests.{if◌then◌else◌}
use poolx.Common.Equality.{Eq, ◌==◌}
use poolx.Common.Lists.{filter}

module _ {ℓ} {A : Type ℓ} ⦃e : Eq A⦄ where
  -- `new Set(xs).has(a)`, `xs.includes(a)`.
  abbrev pub contains : List A → A → Bool
  contains [] a = false
  contains (x ∷ xs) a = x == a || contains xs a

  abbrev pub add : List A → A → List A
  add xs a = if contains xs a then xs else xs ++ a ∷ []

  abbrev pub add_all : List A → List A → List A
  add_all seen [] = seen
  add_all seen (x ∷ xs) = add_all (add seen x) xs

  -- `Array.from(new Set(xs))`: a set keeps the order of insertion.
  unfoldable pub unique : List A → List A
  unique xs = add_all [] xs

  abbrev pub remove : List A → A → List A
  remove xs a = filter (λ x. not (x == a)) xs

  abbrev pub Distinct : List A → Type 0
  Distinct [] = Unit
  Distinct (x ∷ xs) = (contains xs x ≡ false) × Distinct xs

  pub contains-append :
      (xs ys : List A) (a : A) → contains (xs ++ ys) a ≡ (contains xs a || contains ys a)
  contains-append [] ys a = refl
  contains-append (x ∷ xs) ys a = ground (arith, contains-append xs ys a)

  pub contains-remove :
      (xs : List A) (a b : A) → contains (remove xs a) b ≡ (not (a == b) && contains xs b)
  contains-remove [] a b = ground arith
  contains-remove (x ∷ xs) a b =
      ground (arith, contains-remove xs a b, e.equals_iff x a, e.equals_iff x b, e.equals_iff a b)

  contains-add : (xs : List A) (a b : A) → contains (add xs a) b ≡ (a == b || contains xs b)
  contains-add xs a b = ground (arith, contains-append xs (a ∷ []) b, e.equals_iff a b)

  pub contains-add_all :
      (seen xs : List A) (b : A) → contains (add_all seen xs) b ≡ (contains seen b || contains xs b)
  contains-add_all seen [] b = ground arith
  contains-add_all seen (x ∷ xs) b =
      ground (arith, contains-add_all (add seen x) xs b, contains-add seen x b)

  Distinct-append_one :
      (xs : List A) (a : A) → Distinct xs → contains xs a ≡ false → Distinct (xs ++ a ∷ [])
  Distinct-append_one [] a h n = (refl, tt)
  Distinct-append_one (x ∷ xs) a (f, h) n = ground (
    arith,
    contains-append xs (a ∷ []) x,
    Distinct-append_one xs a h,
    e.equals_iff a x,
    e.equals_iff x a,
  )

  Distinct-add : (xs : List A) (a : A) → Distinct xs → Distinct (add xs a)
  Distinct-add xs a h = ground (arith, Distinct-append_one xs a h)

  pub Distinct-add_all : (seen xs : List A) → Distinct seen → Distinct (add_all seen xs)
  Distinct-add_all seen [] h = h
  Distinct-add_all seen (x ∷ xs) h = Distinct-add_all (add seen x) xs (Distinct-add seen x h)

  pub unique-Distinct : (xs : List A) → Distinct (unique xs)
  unfolding unique
  unique-Distinct xs = Distinct-add_all [] xs tt

  pub contains-unique : (xs : List A) (a : A) → contains (unique xs) a ≡ contains xs a
  unfolding unique
  contains-unique xs a = contains-add_all [] xs a

  pub Distinct-remove : (xs : List A) (a : A) → Distinct xs → Distinct (remove xs a)
  Distinct-remove [] a h = tt
  Distinct-remove (x ∷ xs) a (f, h) = ground (arith, Distinct-remove xs a h, contains-remove xs a x)

  -- The selection after a box was ticked or cleared.
  unfoldable pub toggle : List A → A → Bool → List A
  toggle xs a checked = if checked then unique (xs ++ a ∷ []) else remove xs a

  pub toggle-Distinct :
      (xs : List A) (a : A) (checked : Bool) → Distinct xs → Distinct (toggle xs a checked)
  unfolding toggle
  toggle-Distinct xs a true h = unique-Distinct (xs ++ a ∷ [])
  toggle-Distinct xs a false h = Distinct-remove xs a h

  pub contains-toggle :
      (xs : List A) (a b : A) (checked : Bool)
      → contains (toggle xs a checked) b ≡ (if a == b then checked else contains xs b)
  unfolding toggle
  contains-toggle xs a b true =
      ground (arith, contains-unique (xs ++ a ∷ []) b, contains-append xs (a ∷ []) b)
  contains-toggle xs a b false = ground (arith, contains-remove xs a b)

  -- Two lists of distinct elements that share none make one.
  pub Distinct-append :
      (xs ys : List A)
      → Distinct xs
      → Distinct ys
      → ((b : A) → contains xs b ≡ true → contains ys b ≡ false)
      → Distinct (xs ++ ys)
  Distinct-append [] ys h k apart = k
  Distinct-append (x ∷ xs) ys (f, h) k apart = (
    ground (arith, contains-append xs ys x, apart x, e.equals_iff x x),
    Distinct-append xs ys h k (λ b inside. ground (arith, apart b)),
  )
