-- ===== src/Dashboard/Bars.antt =====
-- The bars of the regions are in range.
use poolx.Common.{
  ℕ, suc, zero, ◌≤◌, false, List, [], ◌∷◌, length, take, map, is_empty, ltb, ltb→lt, ◌==◌, ◌≡◌,
  arith, All, length-filter-le, Bool-cases, inl, inr,
}
use poolx.Common.Text.{Text}
use poolx.Nodes.{ProxyNodeItem}
use poolx.Nodes.Region.Labels.{RegionLabel, region_order, region_eq}
use poolx.Nodes.Region.Detection.{detect_region}
use poolx.Nodes.Region.Grouping.{RegionGroup, group_nodes_by_region}
use poolx.Nodes.Region.Grouping.Laws.{groups_of, nodes_in, group_nodes_by_region-groups_of}
use poolx.Dashboard.{share, stats, Stats}
use poolx.Dashboard.Laws.{IsNearest, percent_le}
use poolx.Dashboard.Screen.{RegionBar, region_bars}

-- A group has a node, and no more than there are.
abbrev IsGroup : List ProxyNodeItem → RegionGroup → Type 0
IsGroup nodes group = (1 ≤ length group.nodes) × (length group.nodes ≤ length nodes)

nonempty : (nodes : List ProxyNodeItem) → is_empty nodes ≡ false → 1 ≤ length nodes
nonempty [] h = ground arith
nonempty (n ∷ nodes) h = omega arith

groups_of-IsGroup :
    (nodes : List ProxyNodeItem) (rs : List RegionLabel)
    → All (IsGroup nodes) (groups_of (nodes_in nodes) rs)
groups_of-IsGroup nodes [] = tt
groups_of-IsGroup nodes (r ∷ rs) = elim (Bool-cases (is_empty (nodes_in nodes r))) [
  | inl e ↦ rw e (groups_of-IsGroup nodes rs)
  | inr e ↦ rw e (
    (nonempty (nodes_in nodes r) e, length-filter-le (λ n. detect_region n.name == r) nodes),
    groups_of-IsGroup nodes rs,
  )
]

group_nodes_by_region-IsGroup :
    (nodes : List ProxyNodeItem) → All (IsGroup nodes) (group_nodes_by_region nodes)
group_nodes_by_region-IsGroup nodes =
    rw (group_nodes_by_region-groups_of nodes) (groups_of-IsGroup nodes region_order)

share-le :
    (percent : ℕ → ℕ → ℕ) (s : Stats) (group : RegionGroup)
    → IsNearest percent
    → length group.nodes ≤ s.total_nodes
    → share percent s group ≤ 100
unfolding share
share-le percent s group nearest le = elim (Bool-cases (ltb 0 s.total_nodes)) [
  | inl e ↦
      let positive = ltb→lt 0 s.total_nodes e in
      let near = (nearest (length group.nodes) s.total_nodes positive).0 in
      rw e (
        percent_le s.total_nodes (percent (length group.nodes) s.total_nodes)
          (omega (arith, near, le)) positive)
  | inr e ↦ rw e (omega arith)
]

abbrev pub IsBar : ℕ → RegionBar → Type 0
IsBar total bar = (1 ≤ bar.count) × (bar.count ≤ total) × (bar.width ≤ 100)

abbrev bar_of : (ℕ → ℕ → ℕ) → Stats → RegionGroup → RegionBar
bar_of percent s group = record {
  region = group.region;
  count = length group.nodes;
  width = share percent s group;
}

bars-IsBar :
    (percent : ℕ → ℕ → ℕ) (s : Stats) (groups : List RegionGroup) (k : ℕ)
    → IsNearest percent
    → All (λ g. (1 ≤ length g.nodes) × (length g.nodes ≤ s.total_nodes)) groups
    → (length (map (bar_of percent s) (take k groups)) ≤ k)
      × All (IsBar s.total_nodes) (map (bar_of percent s) (take k groups))
bars-IsBar percent s groups zero nearest h = (omega arith, tt)
bars-IsBar percent s [] (suc k) nearest h = (omega arith, tt)
bars-IsBar percent s (g ∷ groups) (suc k) nearest ((low, high), h) =
    let (short, rest) = bars-IsBar percent s groups k nearest h in
    (omega (arith, short), ((low, high, share-le percent s g nearest high), rest))

-- The distribution has six bars at most. Each stands for a region with a node, counts no more nodes
-- than there are, and is at most as wide as its frame, where a percentage is rounded to a nearest
-- whole number.
pub region_bars-IsBar :
    (upper : Text → Text) (percent : ℕ → ℕ → ℕ) (nodes : List ProxyNodeItem)
    → IsNearest percent
    → (length (region_bars percent (stats upper percent nodes)) ≤ 6)
      × All (IsBar (length nodes)) (region_bars percent (stats upper percent nodes))
unfolding stats region_bars
region_bars-IsBar upper percent nodes nearest =
    bars-IsBar percent (stats upper percent nodes) (group_nodes_by_region nodes) 6 nearest
      (group_nodes_by_region-IsGroup nodes)
