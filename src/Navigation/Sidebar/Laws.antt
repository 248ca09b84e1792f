-- ===== src/Navigation/Sidebar/Laws.antt =====
-- The links of the sidebar for a tree of items, and which of them it marks.
use poolx.Common.{
  All, All-append, ℕ, suc, Bool, true, false, List, [], ◌∷◌, ◌++◌, some, map, filter, any, ◌≡◌,
  refl, sym, ap, ◌∙◌, arith, inl, inr, Bool-cases,
}
use poolx.Common.Text.{Text}
use poolx.Navigation.{
  NavigationItem, leaf, branch, Items, nil, cons, is_navigation_item_active, is_path_active, href,
  flatten_item, flatten_navigation_items, find_match,
}
use poolx.Navigation.Laws.{In, meets, active_item, find_match_lem}
use poolx.Navigation.Sidebar.{Link, sidebar_nav_item, sidebar_nav_items}

abbrev pub items_of : List Link → List NavigationItem
items_of = map (λ l. l.item)

items_of-append : (xs ys : List Link) → items_of (xs ++ ys) ≡ items_of xs ++ items_of ys
items_of-append [] ys = refl
items_of-append (x ∷ xs) ys = ap (λ rest. x.item ∷ rest) (items_of-append xs ys)

module _ (p : Text) where
  mutual
    unfolding sidebar_nav_item sidebar_nav_items flatten_item flatten_navigation_items

    shown_item :
        (depth : ℕ) (item : NavigationItem)
        → items_of (sidebar_nav_item p true depth item) ≡ flatten_item item
    shown_item depth (leaf h l i) = refl
    shown_item depth (branch h l i nil) = refl
    shown_item depth (branch h l i (cons item items)) =
        ap (λ below. branch h l i (cons item items) ∷ below)
          (shown_items (suc depth) (cons item items))

    shown_items :
        (depth : ℕ) (items : Items)
        → items_of (sidebar_nav_items p true depth items) ≡ flatten_navigation_items items
    shown_items depth nil = refl
    shown_items depth (cons item items) =
        items_of-append (sidebar_nav_item p true depth item) (sidebar_nav_items p true depth items)
        ∙ rw (shown_item depth item, shown_items depth items) refl

  -- A link is marked exactly when its item is active.
  abbrev IsMarked : Link → Type 0
  IsMarked link = link.active ≡ is_navigation_item_active p link.item

  mutual
    unfolding sidebar_nav_item sidebar_nav_items

    item-IsMarked :
        (show : Bool) (depth : ℕ) (item : NavigationItem)
        → All IsMarked (sidebar_nav_item p show depth item)
    item-IsMarked show depth (leaf h l i) = (refl, tt)
    item-IsMarked false depth (branch h l i children) = (refl, tt)
    item-IsMarked true depth (branch h l i nil) = (refl, tt)
    item-IsMarked true depth (branch h l i (cons item items)) =
        (refl, items-IsMarked true (suc depth) (cons item items))

    items-IsMarked :
        (show : Bool) (depth : ℕ) (items : Items)
        → All IsMarked (sidebar_nav_items p show depth items)
    items-IsMarked show depth nil = tt
    items-IsMarked show depth (cons item items) =
        All-append IsMarked (sidebar_nav_item p show depth item)
          (sidebar_nav_items p show depth items) (item-IsMarked show depth item)
          (items-IsMarked show depth items)

  marked_items :
      (links : List Link)
      → All IsMarked links
      → items_of (filter (λ l. l.active) links)
        ≡ filter (is_navigation_item_active p) (items_of links)
  marked_items [] h = refl
  marked_items (x ∷ links) (k, h) = rw k (ground (arith, marked_items links h))

  filter_active :
      (xs : List NavigationItem)
      → filter (is_navigation_item_active p) xs
        ≡ filter (λ item. any (λ i. is_path_active p (href i)) (flatten_item item)) xs
  filter_active [] = refl
  filter_active (x ∷ xs) = rw (active_item p x, filter_active xs) refl

  active_of_meets : (m : NavigationItem) → meets p m ≡ true → is_navigation_item_active p m ≡ true
  unfolding is_navigation_item_active
  active_of_meets (leaf h l i) e = rw e refl
  active_of_meets (branch h l i children) e = rw e refl

  In-filter :
      (m : NavigationItem) (xs : List NavigationItem)
      → is_navigation_item_active p m ≡ true
      → In m xs
      → In m (filter (is_navigation_item_active p) xs)
  In-filter m [] e h = h
  In-filter m (x ∷ xs) e (inl same) = rw (sym same, e) (inl refl)
  In-filter m (x ∷ xs) e (inr h) = elim (Bool-cases (is_navigation_item_active p x)) [
    | inl k ↦ rw k (inr (In-filter m xs e h))
    | inr k ↦ rw k (In-filter m xs e h)
  ]

-- Where labels are shown, the sidebar has a link for every item of the tree, in the order of
-- `flattenNavigationItems`, and marks exactly the items whose own path is active or that have an item
-- with an active path at any depth below them; the item that `findMatch` finds for the same path is
-- among those that are marked.
pub sidebar_nav_items-flatten :
    (pathname : Text) (items : Items)
    → let links = sidebar_nav_items pathname true 0 items in
      (items_of links ≡ flatten_navigation_items items)
      × (items_of (filter (λ l. l.active) links)
          ≡ filter
              (λ item. any (λ i. is_path_active pathname (href i)) (flatten_item item))
              (flatten_navigation_items items))
      × ((m : NavigationItem)
          → find_match pathname items ≡ some m
          → In m (items_of (filter (λ l. l.active) links)))
sidebar_nav_items-flatten pathname items =
    let links = sidebar_nav_items pathname true 0 items in
    let all = shown_items pathname 0 items in
    let marked : items_of (filter (λ l. l.active) links)
        ≡ filter (is_navigation_item_active pathname) (flatten_navigation_items items) =
      marked_items pathname links (items-IsMarked pathname true 0 items)
      ∙ ap (filter (is_navigation_item_active pathname)) all in
    (
      all,
      marked ∙ filter_active pathname (flatten_navigation_items items),
      λ m found.
          let (path, here) = (find_match_lem pathname items).0 m found in
          rw marked (
            In-filter pathname m (flatten_navigation_items items) (active_of_meets pathname m path)
              here),
    )
