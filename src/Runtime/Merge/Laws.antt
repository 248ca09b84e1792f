-- ===== src/Runtime/Merge/Laws.antt =====
-- The bound on the entries of the runtime page, and when they are distinct.
use mathlib.Core.List.{append-nil, append_assoc, map-append}
use mathlib.Core.Path.{subst}
use poolx.Common.{
  zero, suc, ℕ, ◌≤◌, ◌-◌, false, not, ◌&&◌, List, [], ◌∷◌, ◌++◌, nat_eq, nat_beq_iff, length, drop,
  take_last, length-drop, length-append, filter, ◌≡◌, refl, sym, ap, ◌∙◌, arith,
}
use poolx.Common.Unique.{contains, Distinct, Distinct-append}
use poolx.Runtime.{RuntimeLogItem}
use poolx.Runtime.Merge.{seqs, push_unseen, merge_logs}

-- The entries sent whose numbers are not among those given.
abbrev pub unseen : List ℕ → List RuntimeLogItem → List RuntimeLogItem
unseen seen incoming = filter (λ item. not (contains seen item.seq)) incoming

push_unseen-unseen :
    (result : List RuntimeLogItem) (seen : List ℕ) (incoming : List RuntimeLogItem)
    → push_unseen result seen incoming ≡ result ++ unseen seen incoming
unfolding push_unseen
push_unseen-unseen result seen [] = sym (append-nil result)
push_unseen-unseen result seen (item ∷ incoming) = ground (
  arith,
  push_unseen-unseen result seen incoming,
  push_unseen-unseen (result ++ item ∷ []) seen incoming,
  append_assoc result (item ∷ []) (unseen seen incoming),
)

-- A merge shows the entries shown before and those sent that were not among them, in this order,
-- and of these the last 300.
pub merge_logs-take_last :
    (existing incoming : List RuntimeLogItem)
    → length existing ≤ 300
    → merge_logs existing incoming ≡ take_last 300 (existing ++ unseen (seqs existing) incoming)
unfolding merge_logs
merge_logs-take_last existing [] h =
    rw append-nil (let e : length existing - 300 ≡ 0 = omega arith in rw e refl)
merge_logs-take_last existing (item ∷ incoming) h =
    ap (take_last 300) (push_unseen-unseen existing (seqs existing) (item ∷ incoming))

length-take_last-le : (n : ℕ) (xs : List RuntimeLogItem) → length (take_last n xs) ≤ n
length-take_last-le n xs = omega (arith, length-drop (length xs - n) xs)

-- The page never holds more than 300 entries.
pub length-merge_logs-le :
    (existing incoming : List RuntimeLogItem)
    → length existing ≤ 300
    → length (merge_logs existing incoming) ≤ 300
unfolding merge_logs
length-merge_logs-le existing [] h = h
length-merge_logs-le existing (item ∷ incoming) h =
    length-take_last-le 300 (push_unseen existing (seqs existing) (item ∷ incoming))

Distinct-drop :
    (n : ℕ) (xs : List RuntimeLogItem) → Distinct (seqs xs) → Distinct (seqs (drop n xs))
Distinct-drop zero xs h = h
Distinct-drop (suc n) [] h = tt
Distinct-drop (suc n) (x ∷ xs) (f, h) = Distinct-drop n xs h

contains-unseen :
    (seen : List ℕ) (incoming : List RuntimeLogItem) (b : ℕ)
    → contains (seqs (unseen seen incoming)) b
      ≡ (not (contains seen b) && contains (seqs incoming) b)
contains-unseen seen [] b = ground arith
contains-unseen seen (item ∷ incoming) b =
    ground (arith, contains-unseen seen incoming b, nat_beq_iff item.seq b)

unseen-Distinct :
    (seen : List ℕ) (incoming : List RuntimeLogItem)
    → Distinct (seqs incoming)
    → Distinct (seqs (unseen seen incoming))
unseen-Distinct seen [] h = tt
unseen-Distinct seen (item ∷ incoming) (f, h) =
    ground (arith, unseen-Distinct seen incoming h, contains-unseen seen incoming item.seq)

-- Distinct entries stay distinct if the server repeats none in one answer.
pub merge_logs-Distinct :
    (existing incoming : List RuntimeLogItem)
    → length existing ≤ 300
    → Distinct (seqs existing)
    → Distinct (seqs incoming)
    → Distinct (seqs (merge_logs existing incoming))
merge_logs-Distinct existing incoming bound h k =
    let all = existing ++ unseen (seqs existing) incoming in
    rw (merge_logs-take_last existing incoming bound) (
      Distinct-drop (length all - 300) all (
        rw map-append (
          Distinct-append (seqs existing) _ h (unseen-Distinct (seqs existing) incoming k)
            (λ b inside. ground (arith, contains-unseen (seqs existing) incoming b)))))

drop-append :
    (n : ℕ) (xs ys : List RuntimeLogItem) → n ≤ length xs → drop n (xs ++ ys) ≡ drop n xs ++ ys
drop-append zero xs ys h = refl
drop-append (suc n) [] ys h = absurd (omega arith)
drop-append (suc n) (x ∷ xs) ys h = drop-append n xs ys (omega arith)

repeated-not_Distinct :
    (xs : List RuntimeLogItem) (item : RuntimeLogItem) → ¬ Distinct (seqs (xs ++ item ∷ item ∷ []))
repeated-not_Distinct [] item (f, h) = ground (arith, nat_beq_iff item.seq item.seq)
repeated-not_Distinct (x ∷ xs) item (f, h) = repeated-not_Distinct xs item h

merge_logs-twice :
    (existing : List RuntimeLogItem) (item : RuntimeLogItem)
    → length existing ≤ 300
    → contains (seqs existing) item.seq ≡ false
    → merge_logs existing (item ∷ item ∷ [])
      ≡ drop (length (existing ++ item ∷ item ∷ []) - 300) existing ++ item ∷ item ∷ []
merge_logs-twice existing item bound new =
    let pushed : unseen (seqs existing) (item ∷ item ∷ []) ≡ item ∷ item ∷ [] = rw new refl in
    merge_logs-take_last existing (item ∷ item ∷ []) bound
    ∙ (ap (λ l. take_last 300 (existing ++ l)) pushed
        ∙ drop-append _ existing (item ∷ item ∷ [])
            (omega (arith, bound, length-append existing (item ∷ item ∷ []))))

-- An answer that holds a new entry twice makes the page show it twice: unlike the merge of the log
-- page, this one does not add what it pushed to the entries seen.
pub merge_logs_repeated :
    (existing : List RuntimeLogItem) (item : RuntimeLogItem)
    → length existing ≤ 300
    → contains (seqs existing) item.seq ≡ false
    → ¬ Distinct (seqs (merge_logs existing (item ∷ item ∷ [])))
merge_logs_repeated existing item bound new d =
    repeated-not_Distinct (drop (length (existing ++ item ∷ item ∷ []) - 300) existing) item
      (subst (λ l. Distinct (seqs l)) (merge_logs-twice existing item bound new) d)
