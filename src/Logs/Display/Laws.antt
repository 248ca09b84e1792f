-- ===== src/Logs/Display/Laws.antt =====
-- When the search of the log page fails, and what it always finds.
use poolx.Common.{
  nat_eq, true, false, List, [], ◌∷◌, none, ◌==◌, list_eq, list_beq_iff, ap, is_empty, any, ◌≡◌,
  ◌↔◌, ◌⊎◌, inl, inr, refl, arith, Bool-cases,
}
use poolx.Common.Text.{Text, trim}
use poolx.Logs.{AppLogItem}
use poolx.Logs.Display.{
  ClassificationMeta, LevelMeta, Entry, own, inherited, object_prototype, is_inherited, look_up,
  classification_meta, level_meta, get_classification_meta, get_level_meta, classification_label,
  level_label, matches_log_keyword,
}

-- Every text that only an inherited key can meet is no key of the table.
look_up-inherited :
    {A : Type 0} (table : List (Text × A)) (value : Text) (unknown : A)
    → any (λ e. is_inherited e.0) table ≡ false
    → (look_up table value unknown ≡ inherited) ↔ (is_inherited value ≡ true)
unfolding look_up
look_up-inherited [] value unknown h = ground arith
look_up-inherited ((key, meta) ∷ table) value unknown h = elim (Bool-cases (key == value)) [
  | inl same ↦
      let e : key ≡ value = (list_beq_iff key value).0 same in
      rw same (ground (arith, ap is_inherited e))
  | inr differ ↦ rw differ (look_up-inherited table value unknown (ground arith))
]

classification_meta-keys : any (λ e. is_inherited e.0) classification_meta ≡ false
unfolding object_prototype
classification_meta-keys = refl

level_meta-keys : any (λ e. is_inherited e.0) level_meta ≡ false
unfolding object_prototype
level_meta-keys = refl

classification_label-none :
    (e : Entry ClassificationMeta) → (classification_label e ≡ none) ↔ (e ≡ inherited)
classification_label-none (own meta) = ground arith
classification_label-none inherited = ground arith

level_label-none : (e : Entry LevelMeta) → (level_label e ≡ none) ↔ (e ≡ inherited)
level_label-none (own meta) = ground arith
level_label-none inherited = ground arith

get_classification_meta-inherited :
    (value : Text)
    → (classification_label (get_classification_meta value) ≡ none) ↔ (is_inherited value ≡ true)
unfolding get_classification_meta
get_classification_meta-inherited value =
    let by_key = look_up-inherited classification_meta value _ classification_meta-keys in
    let by_label = classification_label-none (get_classification_meta value) in
    (λ e. by_key.0 (by_label.0 e), λ e. by_label.1 (by_key.1 e))

get_level_meta-inherited :
    (upper : Text → Text) (value : Text)
    → (level_label (get_level_meta upper value) ≡ none) ↔ (is_inherited value ≡ true)
unfolding get_level_meta
get_level_meta-inherited upper value =
    let by_key = look_up-inherited level_meta value _ level_meta-keys in
    let by_label = level_label-none (get_level_meta upper value) in
    (λ e. by_key.0 (by_label.0 e), λ e. by_label.1 (by_key.1 e))

-- The search throws exactly when the keyword is not blank and the classification or the level of
-- the entry is a key that every object inherits.
pub matches_log_keyword-none_iff :
    (lower upper date_time date_time_ms : Text → Text) (item : AppLogItem) (keyword : Text)
    → (matches_log_keyword lower upper date_time date_time_ms item keyword ≡ none) ↔ (
        (is_empty (lower (trim keyword)) ≡ false)
        × ((is_inherited item.classification ≡ true) ⊎ (is_inherited item.level ≡ true)))
unfolding matches_log_keyword
matches_log_keyword-none_iff lower upper date_time date_time_ms item keyword = ground (
  arith,
  get_classification_meta-inherited item.classification,
  get_level_meta-inherited upper item.level,
)
