-- ===== src/Dashboard/Counts.antt =====
-- The breakdown by protocol counts the nodes of each protocol.
use poolx.Common.{
  ℕ, suc, ◌+◌, Bool, true, false, List, [], ◌∷◌, length, filter, if◌then◌else◌, ◌≡◌, refl, ◌∙◌,
  arith, Bool-cases, inl, inr, ◌==◌, list_eq, nat_eq, list_beq_iff,
}
use poolx.Common.Text.{Text}
use poolx.Nodes.{ProxyNodeItem}
use poolx.Dashboard.{count_in, protocol_of, count_protocols, stats}

-- The count that stands beside a protocol, and the nodes of a protocol.
abbrev pub count_of : Text → List (Text × ℕ) → ℕ
count_of key [] = 0
count_of key ((k, n) ∷ counts) = if k == key then n else count_of key counts

abbrev pub nodes_of_protocol : (Text → Text) → Text → List ProxyNodeItem → List ProxyNodeItem
nodes_of_protocol upper key = filter (λ node. protocol_of upper node == key)

-- No protocol stands in the breakdown twice.
abbrev pub has_key : Text → List (Text × ℕ) → Bool
has_key key [] = false
has_key key ((k, n) ∷ counts) = if k == key then true else has_key key counts

abbrev pub DistinctKeys : List (Text × ℕ) → Type 0
DistinctKeys [] = Unit
DistinctKeys ((k, n) ∷ counts) = (has_key k counts ≡ false) × DistinctKeys counts

count_of-count_in :
    (key other : Text) (counts : List (Text × ℕ))
    → count_of key (count_in counts other)
      ≡ (if other == key then suc (count_of key counts) else count_of key counts)
unfolding count_in
count_of-count_in key other [] = ground arith
count_of-count_in key other ((k, n) ∷ counts) = ground (
  arith,
  count_of-count_in key other counts,
  list_beq_iff k key,
  list_beq_iff k other,
  list_beq_iff other key,
)

has_key-count_in :
    (key other : Text) (counts : List (Text × ℕ))
    → has_key key (count_in counts other) ≡ (if other == key then true else has_key key counts)
unfolding count_in
has_key-count_in key other [] = ground arith
has_key-count_in key other ((k, n) ∷ counts) = ground (
  arith,
  has_key-count_in key other counts,
  list_beq_iff k key,
  list_beq_iff k other,
  list_beq_iff other key,
)

count_in-DistinctKeys :
    (counts : List (Text × ℕ)) (key : Text)
    → DistinctKeys counts
    → DistinctKeys (count_in counts key)
unfolding count_in
count_in-DistinctKeys [] key h = (refl, tt)
count_in-DistinctKeys ((k, n) ∷ counts) key (fresh, h) = elim (Bool-cases (k == key)) [
  | inl e ↦ rw e (fresh, h)
  | inr e ↦ rw e (
    has_key-count_in k key counts ∙ ground (arith, list_beq_iff k key, list_beq_iff key k),
    count_in-DistinctKeys counts key h,
  )
]

module _ (upper : Text → Text) where
  count_protocols-count_of :
      (key : Text) (counts : List (Text × ℕ)) (nodes : List ProxyNodeItem)
      → count_of key (count_protocols upper counts nodes)
        ≡ count_of key counts + length (nodes_of_protocol upper key nodes)
  unfolding count_protocols
  count_protocols-count_of key counts [] = ground arith
  count_protocols-count_of key counts (node ∷ nodes) =
      count_protocols-count_of key (count_in counts (protocol_of upper node)) nodes
      ∙ ground (arith, count_of-count_in key (protocol_of upper node) counts)

  count_protocols-DistinctKeys :
      (counts : List (Text × ℕ)) (nodes : List ProxyNodeItem)
      → DistinctKeys counts
      → DistinctKeys (count_protocols upper counts nodes)
  unfolding count_protocols
  count_protocols-DistinctKeys counts [] h = h
  count_protocols-DistinctKeys counts (node ∷ nodes) h =
      count_protocols-DistinctKeys (count_in counts (protocol_of upper node)) nodes
        (count_in-DistinctKeys counts (protocol_of upper node) h)

-- The breakdown lists every protocol once, and beside each the number of the nodes that have it; a
-- protocol that is not listed has no node.
pub protocol_counts-count_of :
    (upper : Text → Text) (percent : ℕ → ℕ → ℕ) (nodes : List ProxyNodeItem)
    → DistinctKeys (stats upper percent nodes).protocol_counts
      × ((key : Text)
          → count_of key (stats upper percent nodes).protocol_counts
            ≡ length (nodes_of_protocol upper key nodes))
unfolding stats
protocol_counts-count_of upper percent nodes = (
  count_protocols-DistinctKeys upper [] nodes tt,
  λ key. count_protocols-count_of upper key [] nodes ∙ ground arith,
)
