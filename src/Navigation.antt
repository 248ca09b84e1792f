-- ===== src/Navigation.antt =====
-- The navigation of the dashboard: server/web/lib/utils/navigation.ts, lib/constants/navigation.ts
-- and types/navigation.ts.
pub mod Laws
pub mod Sidebar
use poolx.Common.{
  Bool, true, false, ◌&&◌, ◌||◌, List, [], ◌∷◌, ◌++◌, Option, none, some, String, ◌==◌, list_eq,
  if◌then◌else◌, or_else,
}
use poolx.Common.Text.{Text, units, starts_with}

-- `NavigationIconKey`.
pub data NavigationIconKey : Type 0 where
  home import node workspace runtime log file user setting : NavigationIconKey

-- `NavigationItem`, without and with the optional `children`.
mutual
  pub data NavigationItem : Type 0 where
    leaf : Text → String → NavigationIconKey → NavigationItem
    branch : Text → String → NavigationIconKey → Items → NavigationItem

  pub data Items : Type 0 where
    nil : Items
    cons : NavigationItem → Items → Items

abbrev pub href : NavigationItem → Text
href (leaf h l i) = h
href (branch h l i c) = h

abbrev lookup_alias : Text → List (Text × Text) → Option Text
lookup_alias k [] = none
lookup_alias k ((j, v) ∷ m) = if j == k then some v else lookup_alias k m

abbrev navigation_path_aliases : List (Text × Text)
navigation_path_aliases = []

-- `normalizeNavigationPath`.
abbrev pub normalize_navigation_path : Text → Text
normalize_navigation_path pathname =
    or_else (lookup_alias pathname navigation_path_aliases) pathname

-- `isPathActive`.
unfoldable pub is_path_active : Text → Text → Bool
is_path_active pathname target =
    let normalized_pathname = normalize_navigation_path pathname in
    if target == units "/"
    then normalized_pathname == units "/"
    else normalized_pathname == target || starts_with normalized_pathname (target ++ units "/")

-- `isNavigationItemActive`; the second function is `children.some(…)`.
unfoldable mutual
  pub is_navigation_item_active : Text → NavigationItem → Bool
  is_navigation_item_active pathname (leaf h l i) = is_path_active pathname h || false
  is_navigation_item_active pathname (branch h l i children) =
      is_path_active pathname h || some_active pathname children

  pub some_active : Text → Items → Bool
  some_active pathname nil = false
  some_active pathname (cons item items) =
      is_navigation_item_active pathname item || some_active pathname items

-- `flattenNavigationItems`.
unfoldable mutual
  pub flatten_item : NavigationItem → List NavigationItem
  flatten_item (leaf h l i) = leaf h l i ∷ []
  flatten_item (branch h l i children) = branch h l i children ∷ flatten_navigation_items children

  pub flatten_navigation_items : Items → List NavigationItem
  flatten_navigation_items nil = []
  flatten_navigation_items (cons item items) = flatten_item item ++ flatten_navigation_items items

-- `findMatch`; the first function is a round of its loop.
unfoldable mutual
  pub match_item : Text → NavigationItem → Option NavigationItem
  match_item pathname (leaf h l i) = if is_path_active pathname h then some (leaf h l i) else none
  match_item pathname (branch h l i children) = elim (find_match pathname children) [
    | some child ↦ some child
    | none ↦ if is_path_active pathname h then some (branch h l i children) else none
  ]

  pub find_match : Text → Items → Option NavigationItem
  find_match pathname nil = none
  find_match pathname (cons item items) = elim (match_item pathname item) [
    | some found ↦ some found
    | none ↦ find_match pathname items
  ]

-- `dashboardNavigation`.
abbrev pub dashboard_navigation : Items
dashboard_navigation = cons (leaf (units "/") "总览" home) (
    cons (leaf (units "/runtime") "内核" runtime) (
      cons (leaf (units "/workspace") "编排" workspace) (
        cons (leaf (units "/nodes") "节点" node) (
          cons (leaf (units "/log") "日志" log) (
            cons (leaf (units "/user") "用户" user)
              (cons (leaf (units "/setting") "设置" setting) nil))))))

-- `getCurrentNavigationItem`.
unfoldable pub get_current_navigation_item : Text → Option NavigationItem
get_current_navigation_item pathname = find_match pathname dashboard_navigation
