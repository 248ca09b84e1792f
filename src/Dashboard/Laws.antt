-- ===== src/Dashboard/Laws.antt =====
-- The bounds of the statistics on the overview, and what its counts add up to.
use native.Mathlib.Nat.{mul-le-mul_left, le-div_iff_mul-le, div-lt_iff_lt-mul}
use poolx.Common.{
  ℕ, zero, suc, ◌+◌, ◌*◌, ◌/◌, ◌≤◌, ◌<◌, true, false, List, [], ◌∷◌, some, String, length, filter,
  ◌≡◌, refl, sym, ◌∙◌, arith, All, length-filter-le, str_eq, str_eq_iff, Bool-cases, Option-cases,
  inl, inr, ltb, leb, leb→le, ltb→lt, ◌==◌, list_eq, nat_eq,
}
use poolx.Common.Text.{Text}
use poolx.Nodes.{ProxyNodeItem}
use poolx.Dashboard.{
  is_tested, is_passed, is_failed, add_latencies, average, count_in, protocol_of, count_protocols,
  health, stats,
}

-- What counts as an entry of the breakdown.
abbrev pub sum_of : List (Text × ℕ) → ℕ
sum_of [] = 0
sum_of ((k, n) ∷ counts) = n + sum_of counts

sum_of-count_in :
    (counts : List (Text × ℕ)) (key : Text) → sum_of (count_in counts key) ≡ suc (sum_of counts)
unfolding count_in
sum_of-count_in [] key = refl
sum_of-count_in ((k, n) ∷ counts) key = elim (Bool-cases (k == key)) [
  | inl e ↦ rw e (omega arith)
  | inr e ↦ rw e (omega (arith, sum_of-count_in counts key))
]

sum_of-count_protocols :
    (upper : Text → Text) (counts : List (Text × ℕ)) (nodes : List ProxyNodeItem)
    → sum_of (count_protocols upper counts nodes) ≡ sum_of counts + length nodes
unfolding count_protocols
sum_of-count_protocols upper counts [] = omega arith
sum_of-count_protocols upper counts (node ∷ nodes) =
    sum_of-count_protocols upper (count_in counts (protocol_of upper node)) nodes
    ∙ omega (arith, sum_of-count_in counts (protocol_of upper node))

passed_status :
    (s : String)
    → str_eq s "success" ≡ true
    → (str_eq s "failed" ≡ false) × (str_eq s "unknown" ≡ false)
passed_status s e = let same : s ≡ "success" = (str_eq_iff s "success").0 e in rw same (refl, refl)

failed_status : (s : String) → str_eq s "failed" ≡ true → str_eq s "unknown" ≡ false
failed_status s e = let same : s ≡ "failed" = (str_eq_iff s "failed").0 e in rw same refl

-- A node counts as passed or as failed, not as both, and then as tested.
passed_or_failed :
    (nodes : List ProxyNodeItem)
    → length (filter is_passed nodes) + length (filter is_failed nodes)
      ≤ length (filter is_tested nodes)
passed_or_failed [] = omega arith
passed_or_failed (node ∷ nodes) = elim (Bool-cases (str_eq node.last_test_status "success")) [
  | inl p ↦
      let (f, u) = passed_status node.last_test_status p in
      rw (p, f, u) (omega (arith, passed_or_failed nodes))
  | inr p ↦ elim (Bool-cases (str_eq node.last_test_status "failed")) [
    | inl f ↦
        rw (p, f, failed_status node.last_test_status f) (omega (arith, passed_or_failed nodes))
    | inr f ↦ rw (p, f) (ground (arith, passed_or_failed nodes))
  ]
]

-- `percent` is a nearest whole number, either one in a tie.
abbrev pub IsNearest : (ℕ → ℕ → ℕ) → Type 0
IsNearest percent =
    (a b : ℕ)
    → 0 < b
    → (2 * (b * percent a b) ≤ 200 * a + b) × (200 * a ≤ 2 * (b * percent a b) + b)

pub percent_le : (b r : ℕ) → 2 * (b * r) ≤ 201 * b → 0 < b → r ≤ 100
percent_le b r h positive = elim (Bool-cases (leb r 100)) [
  | inl e ↦ leb→le r 100 e
  | inr e ↦
      let big : 101 ≤ r = ground arith in absurd (omega (arith, mul-le-mul_left b big, h, positive))
]

health-le :
    (percent : ℕ → ℕ → ℕ) (total tested passed : ℕ)
    → IsNearest percent
    → passed ≤ tested
    → health percent total tested passed ≤ 100
unfolding health
health-le percent total tested passed nearest le = elim (Bool-cases (ltb 0 tested)) [
  | inl e ↦
      let some_tested = ltb→lt 0 tested e in
      let near = (nearest passed tested some_tested).0 in
      rw e (percent_le tested (percent passed tested) (omega (arith, near, le)) some_tested)
  | inr e ↦ rw e (ground arith)
]

-- The latencies of the nodes, where they are known, are at most a number.
abbrev pub AtMost : ℕ → ProxyNodeItem → Type 0
AtMost m node = (ms : ℕ) → node.last_latency_ms ≡ some ms → ms ≤ m

-- A sum of positive numbers that are at most m.
abbrev Between : ℕ → ℕ × ℕ → Type 0
Between m sums = (sums.1 ≤ sums.0) × (sums.0 ≤ m * sums.1)

next-Between :
    (m total count ms : ℕ)
    → suc ms ≤ m
    → Between m (total, count)
    → Between m (total + suc ms, count + 1)
next-Between m total count ms le (low, high) =
    let more : m * (count + 1) ≡ m * count + m = omega arith in
    (omega (arith, low), rw more (omega (arith, high, le)))

rounded_mean :
    (m total count : ℕ)
    → 0 < count
    → count ≤ total
    → total ≤ m * count
    → (1 ≤ (2 * total + count) / (2 * count)) × ((2 * total + count) / (2 * count) ≤ m)
rounded_mean m total count positive low high =
    let double : 0 < 2 * count = omega (arith, positive) in
    let wide : suc m * (2 * count) ≡ 2 * (m * count) + 2 * count = omega arith in
    let room : 2 * total + count < suc m * (2 * count) = omega (arith, wide, high, positive) in
    let least : 1 * (2 * count) ≤ 2 * total + count = omega (arith, low) in
    let below : (2 * total + count) / (2 * count) < suc m = (div-lt_iff_lt-mul double).1 room in
    ((le-div_iff_mul-le double).1 least, omega (arith, below))

add_latencies-Between :
    (m : ℕ) (sums : ℕ × ℕ) (nodes : List ProxyNodeItem)
    → All (AtMost m) nodes
    → Between m sums
    → Between m (add_latencies sums nodes)
unfolding add_latencies
add_latencies-Between m sums [] h b = b
add_latencies-Between m (total, count) (node ∷ nodes) (here, h) b =
    elim (Option-cases node.last_latency_ms) [
      | inl e ↦ rw e (add_latencies-Between m (total, count) nodes h b)
      | inr (zero, e) ↦ rw e (add_latencies-Between m (total, count) nodes h b)
      | inr (suc ms, e) ↦ rw e (
          add_latencies-Between m (total + suc ms, count + 1) nodes h
            (next-Between m total count ms (here (suc ms) e) b))
    ]

average-Between :
    (m : ℕ) (sums : ℕ × ℕ) (a : ℕ) → Between m sums → average sums ≡ some a → (1 ≤ a) × (a ≤ m)
unfolding average
average-Between m (total, zero) a b e = absurd (ground (arith, e))
average-Between m (total, suc n) a (low, high) e =
    let same : (2 * total + suc n) / (2 * suc n) ≡ a = ground (arith, e) in
    rw (sym same) (rounded_mean m total (suc n) (omega arith) low high)

-- The statistics of the overview are in range: no more nodes are enabled, or tested, than there are,
-- and no more have passed or failed than were tested; the health is at most 100 per cent, where a
-- percentage is rounded to a nearest whole number; an average latency is at least 1 and at most what
-- bounds the latencies of the nodes that have passed; and the counts by protocol add up to the nodes.
pub stats-bounds :
    (upper : Text → Text) (percent : ℕ → ℕ → ℕ) (nodes : List ProxyNodeItem) (m : ℕ)
    → IsNearest percent
    → All (AtMost m) (filter is_passed nodes)
    → let s = stats upper percent nodes in
      (s.enabled_nodes ≤ s.total_nodes)
      × (s.tested_nodes ≤ s.total_nodes)
      × (s.passed_nodes + s.failed_nodes ≤ s.tested_nodes)
      × (s.health_rate ≤ 100)
      × ((a : ℕ) → s.avg_latency ≡ some a → (1 ≤ a) × (a ≤ m))
      × (sum_of s.protocol_counts ≡ s.total_nodes)
unfolding stats
stats-bounds upper percent nodes m nearest bounded = (
  length-filter-le (λ n. n.enabled) nodes,
  length-filter-le is_tested nodes,
  passed_or_failed nodes,
  health-le percent (length nodes) (length (filter is_tested nodes))
      (length (filter is_passed nodes)) nearest (omega (arith, passed_or_failed nodes)),
  λ a e.
      average-Between m (add_latencies (0, 0) (filter is_passed nodes)) a
        (add_latencies-Between m (0, 0) (filter is_passed nodes) bounded (omega arith, omega arith))
        e,
  sum_of-count_protocols upper [] nodes ∙ omega arith,
)
