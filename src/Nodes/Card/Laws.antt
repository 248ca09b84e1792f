-- ===== src/Nodes/Card/Laws.antt =====
-- The list shows every node of its page once, and what the colours of the badges tell.
use mathlib.Core.List.{Perm}
use mathlib.Core.List.Perm
use poolx.Common.{
  ℕ, Bool, true, false, if◌then◌else◌, List, [], ◌∷◌, ◌++◌, none, String, map, ◌≡◌, ◌≢◌, refl, ap,
  arith, is_empty,
}
use poolx.Common.Text.{Text, units, includes, starts_with}
use poolx.Nodes.Card.{group_cards}
use poolx.Nodes.{ProxyNodeItem}
use poolx.Nodes.Region.Labels.{RegionLabel}
use poolx.Nodes.Region.Grouping.{RegionGroup, group_nodes_by_region}
use poolx.Nodes.Region.Grouping.Laws.{members, group_nodes_by_region-perm}
use poolx.Nodes.Card.{
  sky, get_protocol_badge_style, NodeCard, Marks, NodesQuery, Cards, no_cards, flat, grouped,
  render_node_card, list_screen,
}

starts_with-suffix : (p k s : Text) → starts_with s (p ++ k) ≡ true → includes s k ≡ true
unfolding starts_with includes
starts_with-suffix [] k [] h = h
starts_with-suffix [] k (c ∷ s) h = rw h refl
starts_with-suffix (d ∷ p) k [] h = ground arith
starts_with-suffix (d ∷ p) k (c ∷ s) h = ground (arith, starts_with-suffix p k s)

-- A text that includes another one includes its end.
includes-suffix : (p k s : Text) → includes s (p ++ k) ≡ true → includes s k ≡ true
unfolding includes
includes-suffix p k [] h = starts_with-suffix p k [] h
includes-suffix p k (c ∷ s) h =
    ground (arith, starts_with-suffix p k (c ∷ s), includes-suffix p k s)

-- No protocol has the colour that is meant for VLESS: a type whose name holds `vless` holds `ss` too,
-- and takes the colour of Shadowsocks before `vless` is looked for.
pub get_protocol_badge_style-vless :
    (lower : Text → Text) (type : Text) → get_protocol_badge_style lower type ≢ sky
unfolding get_protocol_badge_style
get_protocol_badge_style-vless lower type =
    let ss = includes-suffix (units "vle") (units "ss") (lower type) in ground (arith, ss)

-- The nodes of the cards, from the first one on.
abbrev pub nodes_of : List NodeCard → List ProxyNodeItem
nodes_of = map (λ card. card.node)

abbrev pub group_nodes : List (RegionLabel × List NodeCard) → List ProxyNodeItem
group_nodes [] = []
group_nodes ((region, cards) ∷ groups) = nodes_of cards ++ group_nodes groups

abbrev pub card_nodes : Cards → List ProxyNodeItem
card_nodes no_cards = []
card_nodes (flat cards) = nodes_of cards
card_nodes (grouped groups) = group_nodes groups

module _ (lower : Text → Text) (format_date : String → String) (marks : Marks) where
  nodes_of-render_node_card :
      (nodes : List ProxyNodeItem)
      → nodes_of (map (render_node_card lower format_date marks) nodes) ≡ nodes
  unfolding render_node_card
  nodes_of-render_node_card [] = refl
  nodes_of-render_node_card (node ∷ nodes) = ap (λ l. node ∷ l) (nodes_of-render_node_card nodes)

  group_nodes-groups :
      (groups : List RegionGroup)
      → group_nodes (map (group_cards lower format_date marks) groups) ≡ members groups
  group_nodes-groups [] = refl
  group_nodes-groups (g ∷ groups) =
      rw (nodes_of-render_node_card g.nodes, group_nodes-groups groups) refl

  cards_of : (group : Bool) → List ProxyNodeItem → Cards
  cards_of group nodes =
      if group
      then grouped (map (group_cards lower format_date marks) (group_nodes_by_region nodes))
      else flat (map (render_node_card lower format_date marks) nodes)

  cards_of-perm :
      (group : Bool) (nodes : List ProxyNodeItem) → Perm (card_nodes (cards_of group nodes)) nodes
  unfolding cards_of
  cards_of-perm true nodes =
      rw (group_nodes-groups (group_nodes_by_region nodes)) (group_nodes_by_region-perm nodes)
  cards_of-perm false nodes = rw (nodes_of-render_node_card nodes) (Perm.refl nodes)

  -- Once the nodes are loaded without an error, the cards on the screen are a rearrangement of them,
  -- grouped by region or not, so that grouping hides no node and repeats none; and the note that
  -- there are none stands there exactly where there are none.
  pub list_screen-perm :
      (group : Bool) (page page_size : ℕ) (query : NodesQuery)
      → query.is_loading ≡ false
      → query.error ≡ none
      → Perm
          (card_nodes (list_screen lower format_date marks group page page_size query).cards)
          query.nodes
        × ((list_screen lower format_date marks group page page_size query).empty
            ≡ is_empty query.nodes)
  unfolding list_screen cards_of
  list_screen-perm group page page_size query loaded fine =
      (screen_perm query.nodes refl, rw (loaded, fine) refl)
    where
      screen_perm :
          (nodes : List ProxyNodeItem)
          → query.nodes ≡ nodes
          → Perm
              (card_nodes (list_screen lower format_date marks group page page_size query).cards)
              query.nodes
      screen_perm [] e = rw (loaded, fine, e) Perm.nil
      screen_perm (n ∷ nodes) e = rw (loaded, fine, e) (cards_of-perm group (n ∷ nodes))
