-- ===== src/Nodes/Region/Labels.antt =====
-- `RegionLabel`, `REGION_ORDER` and `FLAG_TO_REGION` of region.ts. The labels of the source are
-- Chinese texts; a constructor stands for each, in the order of `REGION_ORDER`.
use poolx.Common.{
  ℕ, zero, suc, Bool, true, List, [], ◌∷◌, ◌≡◌, refl, ◌↔◌, sym, ap, ◌∙◌, nat_beq, nat_beq_iff, Eq,
}

pub data RegionLabel : Type 0 where
  hong_kong taiwan japan singapore korea usa uk germany france canada australia : RegionLabel
  russia india turkey argentina brazil netherlands malaysia thailand vietnam : RegionLabel
  philippines indonesia other : RegionLabel

unfoldable pub region_order : List RegionLabel
region_order =
    hong_kong ∷ taiwan ∷ japan ∷ singapore ∷ korea ∷ usa ∷ uk ∷ germany ∷ france ∷ canada
    ∷ australia ∷ russia ∷ india ∷ turkey ∷ argentina ∷ brazil ∷ netherlands ∷ malaysia ∷ thailand
    ∷ vietnam ∷ philippines ∷ indonesia ∷ other ∷ []

-- The place of a label in `region_order`.
abbrev pub rank : RegionLabel → ℕ
rank hong_kong = 0
rank taiwan = 1
rank japan = 2
rank singapore = 3
rank korea = 4
rank usa = 5
rank uk = 6
rank germany = 7
rank france = 8
rank canada = 9
rank australia = 10
rank russia = 11
rank india = 12
rank turkey = 13
rank argentina = 14
rank brazil = 15
rank netherlands = 16
rank malaysia = 17
rank thailand = 18
rank vietnam = 19
rank philippines = 20
rank indonesia = 21
rank other = 22

abbrev pub label_at : ℕ → List RegionLabel → RegionLabel
label_at n [] = other
label_at zero (r ∷ rs) = r
label_at (suc n) (r ∷ rs) = label_at n rs

label_at-rank : (r : RegionLabel) → label_at (rank r) region_order ≡ r
unfolding region_order
label_at-rank hong_kong = refl
label_at-rank _ = refl

unfoldable pub region_beq : RegionLabel → RegionLabel → Bool
region_beq a b = nat_beq (rank a) (rank b)

pub region_beq_iff : (a b : RegionLabel) → (region_beq a b ≡ true) ↔ (a ≡ b)
unfolding region_beq
region_beq_iff a b = (
  λ h.
      sym (label_at-rank a)
      ∙ (ap (λ n. label_at n region_order) ((nat_beq_iff (rank a) (rank b)).0 h) ∙ label_at-rank b),
  λ e. (nat_beq_iff (rank a) (rank b)).1 (ap rank e),
)

instance abbrev pub region_eq : Eq RegionLabel
region_eq = record { equals = region_beq; equals_iff = region_beq_iff }
