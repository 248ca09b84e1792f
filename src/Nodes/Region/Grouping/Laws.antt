-- ===== src/Nodes/Region/Grouping/Laws.antt =====
-- What the grouping of nodes by region returns.
use mathlib.Core.List.{append_assoc, append-nil, Perm, perm_middle}
use mathlib.Core.List.Perm
use mathlib.Core.Path.{fun_ext, subst}
use poolx.Common.{
  true, false, List, [], ◌∷◌, ◌++◌, ◌==◌, if◌then◌else◌, is_empty, or_else, filter, ◌≡◌, refl, sym,
  ap, ◌∙◌, arith, Bool-cases, inl, inr,
}
use poolx.Common.Unique.{contains, Distinct}
use poolx.Nodes.{ProxyNodeItem}
use poolx.Nodes.Region.Labels.{
  RegionLabel, region_eq, region_beq, region_beq_iff, region_order, hong_kong,
}
use poolx.Nodes.Region.Detection.{detect_region}
use poolx.Nodes.Region.Grouping.{
  RegionGroup, Buckets, get, push, fill, collect, group_nodes_by_region,
}

-- The nodes of a region, in the order given.
abbrev pub nodes_in : List ProxyNodeItem → RegionLabel → List ProxyNodeItem
nodes_in nodes r = filter (λ n. detect_region n.name == r) nodes

-- The groups that are not empty, in the order of the regions.
abbrev pub groups_of : (RegionLabel → List ProxyNodeItem) → List RegionLabel → List RegionGroup
groups_of members [] = []
groups_of members (r ∷ rs) =
    let rest = groups_of members rs in
    if is_empty (members r) then rest else record { region = r; nodes = members r } ∷ rest

abbrev bucket : {A : Type 0} → Buckets A → RegionLabel → List A
bucket m r = or_else (get r m) []

bucket-push :
    {A : Type 0} (r k : RegionLabel) (n : A) (m : Buckets A)
    → bucket (push k n m) r ≡ (if k == r then bucket m r ++ n ∷ [] else bucket m r)
unfolding get push
bucket-push r k n [] = ground arith
bucket-push r k n ((j, l) ∷ m) = elim (Bool-cases (j == k)) [
  | inl same ↦ let e = (region_beq_iff j k).0 same in rw (same, e) (ground arith)
  | inr differ ↦ rw differ (
      ground
        (arith, bucket-push r k n m, region_beq_iff j k, region_beq_iff j r, region_beq_iff k r))
]

bucket-fill :
    (r : RegionLabel) (m : Buckets ProxyNodeItem) (nodes : List ProxyNodeItem)
    → bucket (fill m nodes) r ≡ bucket m r ++ nodes_in nodes r
unfolding fill
bucket-fill r m [] = sym (append-nil _)
bucket-fill r m (n ∷ nodes) = ground (
  arith,
  bucket-fill r (push (detect_region n.name) n m) nodes,
  bucket-push r (detect_region n.name) n m,
  append_assoc (bucket m r) (n ∷ []) (nodes_in nodes r),
)

collect-groups_of :
    (m : Buckets ProxyNodeItem) (rs : List RegionLabel) → collect m rs ≡ groups_of (bucket m) rs
unfolding collect
collect-groups_of m [] = refl
collect-groups_of m (r ∷ rs) = ground (arith, collect-groups_of m rs)

-- The groups are those of the regions in `REGION_ORDER` that have a node, in that order, and
-- the group of a region holds exactly its nodes, in the order given.
pub group_nodes_by_region-groups_of :
    (nodes : List ProxyNodeItem)
    → group_nodes_by_region nodes ≡ groups_of (nodes_in nodes) region_order
unfolding group_nodes_by_region
group_nodes_by_region-groups_of nodes =
    collect-groups_of (fill [] nodes) region_order
    ∙ ap (λ f. groups_of f region_order) (fun_ext (λ r. bucket-fill r [] nodes))

-- All grouped nodes, group by group.
abbrev pub members : List RegionGroup → List ProxyNodeItem
members [] = []
members (g ∷ gs) = g.nodes ++ members gs

all_in : List ProxyNodeItem → List RegionLabel → List ProxyNodeItem
all_in nodes [] = []
all_in nodes (r ∷ rs) = nodes_in nodes r ++ all_in nodes rs

members-groups_of :
    (nodes : List ProxyNodeItem) (rs : List RegionLabel)
    → members (groups_of (nodes_in nodes) rs) ≡ all_in nodes rs
unfolding all_in
members-groups_of nodes [] = refl
members-groups_of nodes (r ∷ rs) = ground (arith, members-groups_of nodes rs)

contains-region_order : (r : RegionLabel) → contains region_order r ≡ true
unfolding region_beq region_order
contains-region_order hong_kong = refl
contains-region_order _ = refl

module _ (n : ProxyNodeItem) (nodes : List ProxyNodeItem) where
  all_in-absent :
      (rs : List RegionLabel)
      → contains rs (detect_region n.name) ≡ false
      → all_in (n ∷ nodes) rs ≡ all_in nodes rs
  unfolding all_in
  all_in-absent [] h = refl
  all_in-absent (r ∷ rs) h = ground (
    arith,
    all_in-absent rs,
    region_beq_iff r (detect_region n.name),
    region_beq_iff (detect_region n.name) r,
  )

  all_in-present :
      (rs : List RegionLabel)
      → Distinct rs
      → contains rs (detect_region n.name) ≡ true
      → Perm (all_in (n ∷ nodes) rs) (n ∷ all_in nodes rs)
  unfolding all_in
  all_in-present [] d h = cc
  all_in-present (r ∷ rs) (f, d) h = elim (Bool-cases (detect_region n.name == r)) [
    | inl here ↦
        let e = (region_beq_iff _ _).0 here in
        rw (here, all_in-absent rs (rw (← e) at f)) (Perm.refl _)
    | inr there ↦ rw there (
        Perm.trans
          (Perm.append (Perm.refl (nodes_in nodes r)) (
            all_in-present rs d (
              ground (
                arith,
                region_beq_iff r (detect_region n.name),
                region_beq_iff (detect_region n.name) r,
              ))))
          (perm_middle (nodes_in nodes r) (all_in nodes rs)))
  ]

all_in-nil : (rs : List RegionLabel) → all_in [] rs ≡ []
unfolding all_in
all_in-nil [] = refl
all_in-nil (r ∷ rs) = all_in-nil rs

region_order-Distinct : Distinct region_order
unfolding region_beq region_order
region_order-Distinct = (
  refl,
  (
    refl,
    (
      refl,
      (
        refl,
        (
          refl,
          (
            refl,
            (
              refl,
              (
                refl,
                (
                  refl,
                  (
                    refl,
                    (
                      refl,
                      (
                        refl,
                        (
                          refl,
                          (
                            refl,
                            (
                              refl,
                              (refl, (refl, (refl, (refl, (refl, (refl, (refl, (refl, tt)))))))),
                            ),
                          ),
                        ),
                      ),
                    ),
                  ),
                ),
              ),
            ),
          ),
        ),
      ),
    ),
  ),
)

all_in-perm : (nodes : List ProxyNodeItem) → Perm (all_in nodes region_order) nodes
all_in-perm [] = subst (λ l. Perm l []) (sym (all_in-nil region_order)) (Perm.refl [])
all_in-perm (n ∷ nodes) =
    Perm.trans
      (all_in-present n nodes region_order region_order-Distinct
        (contains-region_order (detect_region n.name)))
      (Perm.cons n (all_in-perm nodes))

-- No node is lost and none is shown twice: the groups together are a rearrangement of the nodes.
pub group_nodes_by_region-perm :
    (nodes : List ProxyNodeItem) → Perm (members (group_nodes_by_region nodes)) nodes
group_nodes_by_region-perm nodes =
    rw (group_nodes_by_region-groups_of nodes, members-groups_of nodes region_order)
      (all_in-perm nodes)
