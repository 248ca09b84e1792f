-- ===== src/Nodes/Region/Grouping.antt =====
-- `groupNodesByRegion`.
pub mod Laws
use poolx.Common.{List, [], ◌∷◌, ◌++◌, Option, none, some, ◌==◌, if◌then◌else◌, is_empty}
use poolx.Nodes.{ProxyNodeItem}
use poolx.Nodes.Region.Labels.{RegionLabel, region_eq, region_order}
use poolx.Nodes.Region.Detection.{detect_region}

pub record RegionGroup : Type 0 where
  pub region : RegionLabel
  pub nodes : List ProxyNodeItem

-- The `Map` of the source: its entries in the order of insertion.
abbrev pub Buckets : Type 0 → Type 0
Buckets A = List (RegionLabel × List A)

get : {A : Type 0} → RegionLabel → Buckets A → Option (List A)
get r [] = none
get r ((k, list) ∷ m) = if k == r then some list else get r m

-- One round of the first loop: `list.push(node)`, or a new entry.
push : {A : Type 0} → RegionLabel → A → Buckets A → Buckets A
push r node [] = (r, node ∷ []) ∷ []
push r node ((k, list) ∷ m) =
    if k == r then (k, list ++ node ∷ []) ∷ m else (k, list) ∷ push r node m

fill : Buckets ProxyNodeItem → List ProxyNodeItem → Buckets ProxyNodeItem
fill buckets [] = buckets
fill buckets (node ∷ nodes) = fill (push (detect_region node.name) node buckets) nodes

-- The second loop.
collect : Buckets ProxyNodeItem → List RegionLabel → List RegionGroup
collect buckets [] = []
collect buckets (region ∷ regions) =
    let rest = collect buckets regions in
    elim (get region buckets) [
      | none ↦ rest
      | some list ↦ if is_empty list then rest else record { region = region; nodes = list } ∷ rest
    ]

unfoldable pub group_nodes_by_region : List ProxyNodeItem → List RegionGroup
unfolding get push fill collect
group_nodes_by_region nodes = collect (fill [] nodes) region_order
