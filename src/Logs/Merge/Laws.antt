-- ===== src/Logs/Merge/Laws.antt =====
-- What the merge of the log page keeps, and in what order.
use mathlib.Core.List.{append-nil, append_assoc, Perm, map-append}
use mathlib.Core.List.Perm
use poolx.Common.{
  ℕ, ◌≤◌, true, false, not, ◌&&◌, ◌||◌, List, [], ◌∷◌, ◌++◌, ltb, if◌then◌else◌, is_empty, nat_eq,
  ◌==◌, nat_beq_iff, All, ◌≡◌, refl, sym, ap, ◌∙◌, arith, Bool-cases, inl, inr,
}
use poolx.Common.Unique.{contains, Distinct, Distinct-append, contains-append}
use poolx.Logs.{AppLogItem}
use poolx.Logs.Merge.{ids, push_unseen, insert_by_id, sort_by_id, merge_logs}

-- The first entry of each id that was not seen, in the order given.
abbrev pub fresh : List ℕ → List AppLogItem → List AppLogItem
fresh seen [] = []
fresh seen (item ∷ incoming) =
    let skip = fresh seen incoming in
    let keep = item ∷ fresh (item.id ∷ seen) incoming in
    if contains seen item.id then skip else keep

push_unseen-fresh :
    (items : List AppLogItem) (seen : List ℕ) (incoming : List AppLogItem)
    → push_unseen items seen incoming ≡ items ++ fresh seen incoming
unfolding push_unseen
push_unseen-fresh items seen [] = sym (append-nil items)
push_unseen-fresh items seen (item ∷ incoming) = ground (
  arith,
  push_unseen-fresh items seen incoming,
  push_unseen-fresh (items ++ item ∷ []) (item.id ∷ seen) incoming,
  append_assoc items (item ∷ []) (fresh (item.id ∷ seen) incoming),
)

insert_by_id-perm :
    (item : AppLogItem) (xs : List AppLogItem) → Perm (insert_by_id item xs) (item ∷ xs)
unfolding insert_by_id
insert_by_id-perm item [] = Perm.refl _
insert_by_id-perm item (x ∷ xs) = elim (Bool-cases (ltb x.id item.id)) [
  | inl before ↦
      rw before (Perm.trans (Perm.cons x (insert_by_id-perm item xs)) (Perm.swap item x xs))
  | inr after ↦ rw after (Perm.refl _)
]

sort_by_id-perm : (xs : List AppLogItem) → Perm (sort_by_id xs) xs
unfolding sort_by_id
sort_by_id-perm [] = Perm.refl []
sort_by_id-perm (x ∷ xs) =
    Perm.trans (insert_by_id-perm x (sort_by_id xs)) (Perm.cons x (sort_by_id-perm xs))

abbrev pub IsSorted : List AppLogItem → Type 0
IsSorted [] = Unit
IsSorted (x ∷ xs) = All (λ y. x.id ≤ y.id) xs × IsSorted xs

All-le-insert :
    (n : ℕ) (item : AppLogItem) (xs : List AppLogItem)
    → n ≤ item.id
    → All (λ y. n ≤ y.id) xs
    → All (λ y. n ≤ y.id) (insert_by_id item xs)
unfolding insert_by_id
All-le-insert n item [] h k = (h, tt)
All-le-insert n item (x ∷ xs) h (k, ks) = ground (arith, All-le-insert n item xs h ks)

All-le_trans :
    (n m : ℕ) (xs : List AppLogItem) → n ≤ m → All (λ y. m ≤ y.id) xs → All (λ y. n ≤ y.id) xs
All-le_trans n m [] h k = tt
All-le_trans n m (x ∷ xs) h (k, ks) = (omega arith, All-le_trans n m xs h ks)

insert_by_id-IsSorted :
    (item : AppLogItem) (xs : List AppLogItem) → IsSorted xs → IsSorted (insert_by_id item xs)
unfolding insert_by_id
insert_by_id-IsSorted item [] h = (tt, tt)
insert_by_id-IsSorted item (x ∷ xs) (h, hs) = ground (
  arith,
  insert_by_id-IsSorted item xs hs,
  All-le-insert x.id item xs,
  All-le_trans item.id x.id xs,
)

sort_by_id-IsSorted : (xs : List AppLogItem) → IsSorted (sort_by_id xs)
unfolding sort_by_id
sort_by_id-IsSorted [] = tt
sort_by_id-IsSorted (x ∷ xs) = insert_by_id-IsSorted x (sort_by_id xs) (sort_by_id-IsSorted xs)

insert_by_id-first :
    (item : AppLogItem) (xs : List AppLogItem)
    → All (λ y. item.id ≤ y.id) xs
    → insert_by_id item xs ≡ item ∷ xs
unfolding insert_by_id
insert_by_id-first item [] h = refl
insert_by_id-first item (x ∷ xs) (h, hs) = ground arith

sort_by_id-sorted : (xs : List AppLogItem) → IsSorted xs → sort_by_id xs ≡ xs
unfolding sort_by_id
sort_by_id-sorted [] h = refl
sort_by_id-sorted (x ∷ xs) (h, hs) = rw (sort_by_id-sorted xs hs) (insert_by_id-first x xs h)

contains-insert_by_id :
    (item : AppLogItem) (xs : List AppLogItem) (b : ℕ)
    → contains (ids (insert_by_id item xs)) b ≡ (item.id == b || contains (ids xs) b)
unfolding insert_by_id
contains-insert_by_id item [] b = refl
contains-insert_by_id item (x ∷ xs) b = ground (arith, contains-insert_by_id item xs b)

contains-sort_by_id :
    (xs : List AppLogItem) (b : ℕ) → contains (ids (sort_by_id xs)) b ≡ contains (ids xs) b
unfolding sort_by_id
contains-sort_by_id [] b = refl
contains-sort_by_id (x ∷ xs) b =
    ground (arith, contains-insert_by_id x (sort_by_id xs) b, contains-sort_by_id xs b)

insert_by_id-Distinct :
    (item : AppLogItem) (xs : List AppLogItem)
    → contains (ids xs) item.id ≡ false
    → Distinct (ids xs)
    → Distinct (ids (insert_by_id item xs))
unfolding insert_by_id
insert_by_id-Distinct item [] n h = (refl, tt)
insert_by_id-Distinct item (x ∷ xs) n (k, h) =
    ground (arith, contains-insert_by_id item xs x.id, insert_by_id-Distinct item xs)

sort_by_id-Distinct : (xs : List AppLogItem) → Distinct (ids xs) → Distinct (ids (sort_by_id xs))
unfolding sort_by_id
sort_by_id-Distinct [] h = tt
sort_by_id-Distinct (x ∷ xs) (k, h) =
    insert_by_id-Distinct x (sort_by_id xs) (contains-sort_by_id xs x.id ∙ k)
      (sort_by_id-Distinct xs h)

contains-fresh :
    (seen : List ℕ) (incoming : List AppLogItem) (b : ℕ)
    → contains (ids (fresh seen incoming)) b ≡ (not (contains seen b) && contains (ids incoming) b)
contains-fresh seen [] b = ground arith
contains-fresh seen (item ∷ incoming) b =
    ground (arith, contains-fresh seen incoming b, contains-fresh (item.id ∷ seen) incoming b)

fresh-Distinct : (seen : List ℕ) (incoming : List AppLogItem) → Distinct (ids (fresh seen incoming))
fresh-Distinct seen [] = tt
fresh-Distinct seen (item ∷ incoming) = ground (
  arith,
  fresh-Distinct seen incoming,
  fresh-Distinct (item.id ∷ seen) incoming,
  contains-fresh (item.id ∷ seen) incoming item.id,
)

-- The entries before the sort.
abbrev joined : List AppLogItem → List AppLogItem → List AppLogItem
joined existing incoming = existing ++ fresh (ids existing) incoming

contains-joined :
    (existing incoming : List AppLogItem) (b : ℕ)
    → contains (ids (joined existing incoming)) b
      ≡ (contains (ids existing) b || contains (ids incoming) b)
contains-joined existing incoming b = rw map-append (
    ground (
      arith,
      contains-append (ids existing) (ids (fresh (ids existing) incoming)) b,
      contains-fresh (ids existing) incoming b,
    ))

joined-Distinct :
    (existing incoming : List AppLogItem)
    → Distinct (ids existing)
    → Distinct (ids (joined existing incoming))
joined-Distinct existing incoming h = rw map-append (
    Distinct-append (ids existing) _ h (fresh-Distinct (ids existing) incoming)
      (λ b inside. ground (arith, contains-fresh (ids existing) incoming b)))

merge_logs-joined :
    (existing : List AppLogItem) (item : AppLogItem) (incoming : List AppLogItem)
    → merge_logs existing (item ∷ incoming) ≡ sort_by_id (joined existing (item ∷ incoming))
unfolding merge_logs
merge_logs-joined existing item incoming =
    ap sort_by_id (push_unseen-fresh existing (ids existing) (item ∷ incoming))

merge_logs-nil : (existing : List AppLogItem) → merge_logs existing [] ≡ existing
unfolding merge_logs
merge_logs-nil existing = refl

-- Entries that have distinct ids keep them through a merge, whatever the server sends, also if it
-- repeats an entry; and the ids after the merge are exactly those shown before and those sent.
pub merge_logs-ids :
    (existing incoming : List AppLogItem)
    → Distinct (ids existing)
    → Distinct (ids (merge_logs existing incoming))
      × ((b : ℕ)
          → contains (ids (merge_logs existing incoming)) b
            ≡ (contains (ids existing) b || contains (ids incoming) b))
merge_logs-ids existing [] h = rw merge_logs-nil (h, λ b. ground arith)
merge_logs-ids existing (item ∷ incoming) h = rw (merge_logs-joined existing item incoming) (
  sort_by_id-Distinct _ (joined-Distinct existing (item ∷ incoming) h),
  λ b. contains-sort_by_id _ b ∙ contains-joined existing (item ∷ incoming) b,
)

-- A merge with something new is sorted by id, and it is a rearrangement of the entries shown
-- before and of the first entry sent of each id that was not among them.
pub merge_logs-IsSorted :
    (existing incoming : List AppLogItem)
    → is_empty incoming ≡ false
    → IsSorted (merge_logs existing incoming)
      × Perm (merge_logs existing incoming) (existing ++ fresh (ids existing) incoming)
merge_logs-IsSorted existing [] h = cc
merge_logs-IsSorted existing (item ∷ incoming) h =
    rw (merge_logs-joined existing item incoming) (sort_by_id-IsSorted _, sort_by_id-perm _)

fresh-all_seen :
    (seen : List ℕ) (incoming : List AppLogItem)
    → ((b : ℕ) → contains (ids incoming) b ≡ true → contains seen b ≡ true)
    → fresh seen incoming ≡ []
fresh-all_seen seen [] h = refl
fresh-all_seen seen (item ∷ incoming) h = ground (
  arith,
  h item.id,
  fresh-all_seen seen incoming (λ b inside. ground (arith, h b)),
  nat_beq_iff item.id item.id,
)

merge_logs-all_seen :
    (existing incoming : List AppLogItem)
    → IsSorted existing
    → ((b : ℕ) → contains (ids incoming) b ≡ true → contains (ids existing) b ≡ true)
    → merge_logs existing incoming ≡ existing
merge_logs-all_seen existing [] sorted seen = merge_logs-nil existing
merge_logs-all_seen existing (item ∷ incoming) sorted seen =
    merge_logs-joined existing item incoming
    ∙ (ap (λ new. sort_by_id (existing ++ new))
          (fresh-all_seen (ids existing) (item ∷ incoming) seen)
        ∙ (ap sort_by_id (append-nil existing) ∙ sort_by_id-sorted existing sorted))

-- Merging the same answer a second time changes nothing.
pub merge_logs_idempotent :
    (existing incoming : List AppLogItem)
    → merge_logs (merge_logs existing incoming) incoming ≡ merge_logs existing incoming
merge_logs_idempotent existing [] = merge_logs-nil (merge_logs existing [])
merge_logs_idempotent existing (item ∷ incoming) =
    merge_logs-all_seen (merge_logs existing (item ∷ incoming)) (item ∷ incoming)
      (merge_logs-IsSorted existing (item ∷ incoming) refl).0
      (λ b sent.
        ap (λ l. contains (ids l) b) (merge_logs-joined existing item incoming)
        ∙ (contains-sort_by_id _ b ∙ (contains-joined existing (item ∷ incoming) b ∙ ground arith)))
