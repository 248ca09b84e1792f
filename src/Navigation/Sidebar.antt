-- ===== src/Navigation/Sidebar.antt =====
-- What server/web/components/layout/dashboard-sidebar.tsx shows of a tree of items.
pub mod Laws
use poolx.Common.{
  ℕ, suc, Bool, true, false, not, ◌&&◌, ◌||◌, List, [], ◌∷◌, ◌++◌, Option, none, some, String,
  if◌then◌else◌, ltb,
}
use poolx.Common.Text.{Text}
use poolx.Navigation.{
  NavigationItem, leaf, branch, Items, nil, cons, is_navigation_item_active, dashboard_navigation,
}

-- The link of one item: its label, its title where it has no label, whether it is marked as active,
-- with a dot, and whether it is set in.
pub record Link : Type 0 where
  pub item : NavigationItem
  pub label : Option String
  pub title : Option String
  pub active : Bool
  pub dot : Bool
  pub indented : Bool

abbrev pub label_of : NavigationItem → String
label_of (leaf h l i) = l
label_of (branch h l i c) = l

abbrev has_children : Items → Bool
has_children nil = false
has_children (cons item items) = true

module _ (current_path : Text) (show_label : Bool) where
  abbrev pub link_of : ℕ → NavigationItem → Link
  link_of depth item =
      let active = is_navigation_item_active current_path item in
      record {
        item = item;
        label = if show_label then some (label_of item) else none;
        title = if not show_label then some (label_of item) else none;
        active = active;
        dot = active && show_label;
        indented = ltb 0 depth;
      }

  -- `SidebarNavItem`, as the list of its links from above; the second function maps it over items.
  unfoldable mutual
    pub sidebar_nav_item : ℕ → NavigationItem → List Link
    sidebar_nav_item depth (leaf h l i) = link_of depth (leaf h l i) ∷ []
    sidebar_nav_item depth (branch h l i children) =
        let below = sidebar_nav_items (suc depth) children in
        link_of depth (branch h l i children)
        ∷ (if show_label && has_children children then below else [])

    pub sidebar_nav_items : ℕ → Items → List Link
    sidebar_nav_items depth nil = []
    sidebar_nav_items depth (cons item items) =
        sidebar_nav_item depth item ++ sidebar_nav_items depth items

-- The links of `SidebarContent`: of the panel over the page, whose labels are always shown, and of the
-- column beside it.
unfoldable pub mobile_links : Text → List Link
mobile_links current_path = sidebar_nav_items current_path true 0 dashboard_navigation

unfoldable pub column_links : Text → (is_sidebar_collapsed : Bool) → List Link
column_links current_path collapsed =
    sidebar_nav_items current_path (not collapsed) 0 dashboard_navigation
