-- ===== src/Tests/Navigation.antt =====
-- The navigation at concrete paths, and a dialog.
use poolx.Common.{true, false, List, [], ◌∷◌, ◌++◌, none, some, any, ◌≡◌, refl, arith, filter}
use poolx.Common.Text.{units}
use poolx.Navigation.{
  NavigationItem, leaf, branch, nil, cons, node, import, find_match, flatten_navigation_items,
  is_path_active, href, flatten_item,
}
use poolx.Navigation.Laws.{In}
use poolx.Navigation.Sidebar.{sidebar_nav_items}
use poolx.Navigation.Sidebar.Laws.{items_of, sidebar_nav_items-flatten}
use poolx.Modal.{Document, Event, rendered, set_up, clean_up, step, run, mount, press_escape}
use poolx.Modal.Laws.{overflow_for, callbacks_for, last_rendered, run-mount}

abbrev imports : NavigationItem
imports = leaf (units "/nodes/import") "导入" import

abbrev nodes : NavigationItem
nodes = branch (units "/nodes") "节点" node (cons imports nil)

sidebar_nav_items-flatten_example :
    let links = sidebar_nav_items (units "/nodes/import/3") true 0 (cons nodes nil) in
    (items_of links ≡ flatten_navigation_items (cons nodes nil))
    × (items_of (filter (λ l. l.active) links)
        ≡ filter
            (λ item.
              any (λ i. is_path_active (units "/nodes/import/3") (href i)) (flatten_item item))
            (flatten_navigation_items (cons nodes nil)))
    × ((m : NavigationItem)
        → find_match (units "/nodes/import/3") (cons nodes nil) ≡ some m
        → In m (items_of (filter (λ l. l.active) links)))
sidebar_nav_items-flatten_example =
    sidebar_nav_items-flatten (units "/nodes/import/3") (cons nodes nil)

-- Without labels only the items at the top are shown.
collapsed_links :
    items_of (sidebar_nav_items (units "/nodes/import/3") false 0 (cons nodes nil)) ≡ nodes ∷ []
unfolding sidebar_nav_items
collapsed_links = refl

-- A page with a listener that can be scrolled, and a dialog that is opened, rendered again with
-- another callback, and closed.
abbrev page : Document
page = record { overflow = units "auto"; listeners = (0, 7) ∷ []; next = 1 }

abbrev story : List Event
story = rendered true 3 ∷ rendered true 4 ∷ []

run-mount_example :
    let s = run (mount page) story in
    (s.document.overflow ≡ overflow_for page.overflow (last_rendered none story))
    × (press_escape s.document ≡ press_escape page ++ callbacks_for (last_rendered none story))
run-mount_example = run-mount page story (omega arith, tt)

-- While it is open, Escape calls the second callback only, after the listener of the page; once it is
-- closed, the page is as before.
open_and_closed :
    (press_escape (run (mount page) story).document ≡ 7 ∷ 4 ∷ [])
    × ((run (mount page) (story ++ rendered false 4 ∷ [])).document.overflow ≡ units "auto")
unfolding run step set_up clean_up
open_and_closed = (refl, refl)
