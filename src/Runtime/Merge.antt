-- ===== src/Runtime/Merge.antt =====
-- `mergeLogs` of components/runtime-page.tsx.
pub mod Laws
use poolx.Common.{
  ℕ, Bool, true, false, List, [], ◌∷◌, ◌++◌, map, if◌then◌else◌, is_empty, take_last, nat_eq,
}
use poolx.Common.Unique.{contains}
use poolx.Runtime.{RuntimeLogItem}

abbrev pub seqs : List RuntimeLogItem → List ℕ
seqs items = map (λ item. item.seq) items

-- The loop. The set `seen` holds the numbers of the entries shown before, and is left as it is.
unfoldable pub push_unseen :
    List RuntimeLogItem → List ℕ → List RuntimeLogItem → List RuntimeLogItem
push_unseen result seen [] = result
push_unseen result seen (item ∷ incoming) =
    push_unseen (if contains seen item.seq then result else result ++ item ∷ []) seen incoming

-- `result.slice(-300)` keeps the last 300.
unfoldable pub merge_logs : List RuntimeLogItem → List RuntimeLogItem → List RuntimeLogItem
merge_logs existing incoming =
    if is_empty incoming
    then existing
    else take_last 300 (push_unseen existing (seqs existing) incoming)
