-- ===== src/Logs/Merge.antt =====
-- `mergeLogs` of components/logs-page.tsx.
pub mod Laws
use poolx.Common.{
  ℕ, Bool, true, false, List, [], ◌∷◌, ◌++◌, map, ltb, if◌then◌else◌, is_empty, nat_eq,
}
use poolx.Common.Unique.{contains}
use poolx.Logs.{AppLogItem}

abbrev pub ids : List AppLogItem → List ℕ
ids items = map (λ item. item.id) items

-- The loop: the entries whose id was not seen are pushed, and their ids are seen then.
unfoldable pub push_unseen : List AppLogItem → List ℕ → List AppLogItem → List AppLogItem
push_unseen items seen [] = items
push_unseen items seen (item ∷ incoming) = elim (contains seen item.id) [
  | true ↦ push_unseen items seen incoming
  | false ↦ push_unseen (items ++ item ∷ []) (item.id ∷ seen) incoming
]

-- `items.sort((left, right) => left.id - right.id)`, which is stable.
unfoldable pub insert_by_id : AppLogItem → List AppLogItem → List AppLogItem
insert_by_id item [] = item ∷ []
insert_by_id item (x ∷ xs) = if ltb x.id item.id then x ∷ insert_by_id item xs else item ∷ (x ∷ xs)

unfoldable pub sort_by_id : List AppLogItem → List AppLogItem
sort_by_id [] = []
sort_by_id (item ∷ items) = insert_by_id item (sort_by_id items)

unfoldable pub merge_logs : List AppLogItem → List AppLogItem → List AppLogItem
merge_logs existing incoming =
    if is_empty incoming
    then existing
    else sort_by_id (push_unseen existing (ids existing) incoming)
