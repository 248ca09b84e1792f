-- ===== src/Navigation/Laws.antt =====
-- Which navigation item is active, and which one is current.
use poolx.Common.{
  Bool, true, false, List, [], ◌∷◌, ◌++◌, none, some, ◌≡◌, ◌⊎◌, inl, inr, refl, arith, any,
  any-append, ◌==◌, list_eq,
}
use mathlib.Core.List.{append-nil}
use poolx.Common.Text.{Text, units, starts_with}
use poolx.Navigation.{
  NavigationItem, Items, leaf, branch, nil, cons, href, is_path_active, is_navigation_item_active,
  some_active, flatten_item, flatten_navigation_items, match_item, find_match, dashboard_navigation,
  get_current_navigation_item,
}

abbrev pub meets : Text → NavigationItem → Bool
meets pathname item = is_path_active pathname (href item)

mutual
  unfolding is_navigation_item_active some_active flatten_item flatten_navigation_items

  pub active_item :
      (p : Text) (item : NavigationItem)
      → is_navigation_item_active p item ≡ any (meets p) (flatten_item item)
  active_item p (leaf h l i) = refl
  active_item p (branch h l i children) = ground (arith, active_items p children)

  active_items :
      (p : Text) (items : Items)
      → some_active p items ≡ any (meets p) (flatten_navigation_items items)
  active_items p nil = refl
  active_items p (cons item items) = ground (
    arith,
    active_item p item,
    active_items p items,
    any-append (meets p) (flatten_item item) (flatten_navigation_items items),
  )

mutual
  unfolding match_item find_match flatten_item flatten_navigation_items

  match_item-none :
      (p : Text) (item : NavigationItem)
      → match_item p item ≡ none
      → any (meets p) (flatten_item item) ≡ false
  match_item-none p (leaf h l i) e = ground arith
  match_item-none p (branch h l i children) e = ground (arith, find_match-none p children)

  find_match-none :
      (p : Text) (items : Items)
      → find_match p items ≡ none
      → any (meets p) (flatten_navigation_items items) ≡ false
  find_match-none p nil e = refl
  find_match-none p (cons item items) e = ground (
    arith,
    match_item-none p item,
    find_match-none p items,
    any-append (meets p) (flatten_item item) (flatten_navigation_items items),
  )

-- An item stands in a list.
abbrev pub In : NavigationItem → List NavigationItem → Type 0
In m [] = ⊥
In m (x ∷ xs) = (m ≡ x) ⊎ In m xs

In-append_left : (m : NavigationItem) (xs ys : List NavigationItem) → In m xs → In m (xs ++ ys)
In-append_left m [] ys h = elim h [ ]
In-append_left m (x ∷ xs) ys (inl e) = inl e
In-append_left m (x ∷ xs) ys (inr h) = inr (In-append_left m xs ys h)

In-append_right : (m : NavigationItem) (xs ys : List NavigationItem) → In m ys → In m (xs ++ ys)
In-append_right m [] ys h = h
In-append_right m (x ∷ xs) ys h = inr (In-append_right m xs ys h)

-- An active item of a list.
abbrev pub Hit : Text → List NavigationItem → NavigationItem → Type 0
Hit p xs m = (meets p m ≡ true) × In m xs

mutual
  unfolding match_item find_match flatten_item flatten_navigation_items

  match_item-some :
      (p : Text) (item m : NavigationItem)
      → match_item p item ≡ some m
      → Hit p (flatten_item item) m
  match_item-some p (leaf h l i) m e = ground arith
  match_item-some p (branch h l i children) m e = ground (arith, find_match-some p children m)

  find_match-some :
      (p : Text) (items : Items) (m : NavigationItem)
      → find_match p items ≡ some m
      → Hit p (flatten_navigation_items items) m
  find_match-some p nil m e = cc
  find_match-some p (cons item items) m e = ground (
    arith,
    match_item-some p item m,
    find_match-some p items m,
    In-append_left m (flatten_item item) (flatten_navigation_items items),
    In-append_right m (flatten_item item) (flatten_navigation_items items),
  )

-- An item is shown as active exactly when it or an item below it, at any depth, has an active
-- path.
pub is_navigation_item_active-flatten :
    (pathname : Text) (item : NavigationItem)
    → is_navigation_item_active pathname item
      ≡ any (meets pathname) (flatten_navigation_items (cons item nil))
unfolding flatten_navigation_items
is_navigation_item_active-flatten pathname item = rw append-nil (active_item pathname item)

-- The search returns an item of the tree whose path is active, and it returns none only if no item
-- at any depth has an active path.
pub find_match_lem :
    (pathname : Text) (items : Items)
    → ((m : NavigationItem)
        → find_match pathname items ≡ some m
        → Hit pathname (flatten_navigation_items items) m)
      × (find_match pathname items ≡ none
          → any (meets pathname) (flatten_navigation_items items) ≡ false)
find_match_lem pathname items = (find_match-some pathname items, find_match-none pathname items)

-- An item is current on its own path and on the given path below it.
abbrev pub IsShown : Text → NavigationItem → Type 0
IsShown rest item =
    (get_current_navigation_item (href item) ≡ some item)
    × (get_current_navigation_item (href item ++ (units "/" ++ rest)) ≡ some item)

-- Each page of the dashboard but the overview is current on its own path and on every path below
-- it.
pub get_current_navigation_item-below :
    (rest : Text) (item : NavigationItem)
    → In item (flatten_navigation_items dashboard_navigation)
    → (href item == units "/") ≡ false
    → IsShown rest item
unfolding get_current_navigation_item find_match is_path_active starts_with flatten_navigation_items
get_current_navigation_item-below rest item (inl e) h = absurd (cc (rw e at h))
get_current_navigation_item-below rest item (inr (inl e)) h = rw e (refl, refl)
get_current_navigation_item-below rest item (inr (inr (inl e))) h = rw e (refl, refl)
get_current_navigation_item-below rest item (inr (inr (inr (inl e)))) h = rw e (refl, refl)
get_current_navigation_item-below rest item (inr (inr (inr (inr (inl e))))) h = rw e (refl, refl)
get_current_navigation_item-below rest item (inr (inr (inr (inr (inr (inl e)))))) h =
    rw e (refl, refl)
get_current_navigation_item-below rest item (inr (inr (inr (inr (inr (inr (inl e))))))) h =
    rw e (refl, refl)
get_current_navigation_item-below rest item (inr (inr (inr (inr (inr (inr (inr nowhere))))))) h =
    absurd nowhere
