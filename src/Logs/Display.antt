-- ===== src/Logs/Display.antt =====
-- lib/log-display.ts. The tables of the module are object literals, and `value in table` also finds
-- what `Object.prototype` gives every object; such a value of the table has no `label`.
-- `toLowerCase`, `toUpperCase` and the two date formats are arguments.
pub mod Laws
use poolx.Common.{
  Bool, true, false, ◌||◌, List, [], ◌∷◌, ◌++◌, Option, none, some, String, if◌then◌else◌, ◌==◌,
  list_eq, is_empty, or_else,
}
use poolx.Common.Text.{Text, units, trim, includes}
use poolx.Common.Unique.{contains}
use poolx.Logs.{AppLogItem}

pub record ClassificationMeta : Type 0 where
  pub label : Text
  pub tone : String
  pub dot : String

pub record LevelMeta : Type 0 where
  pub label : Text

-- `table[key]`: an entry, or a function or object that every object inherits.
pub data Entry (A : Type 0) : Type 0 where
  own : A → Entry A
  inherited : Entry A

-- The keys of `Object.prototype`.
unfoldable pub object_prototype : List Text
object_prototype =
    units "constructor"
    ∷ units "__defineGetter__"
    ∷ units "__defineSetter__"
    ∷ units "hasOwnProperty"
    ∷ units "__lookupGetter__"
    ∷ units "__lookupSetter__"
    ∷ units "isPrototypeOf"
    ∷ units "propertyIsEnumerable"
    ∷ units "toString"
    ∷ units "valueOf"
    ∷ units "__proto__"
    ∷ units "toLocaleString"
    ∷ []

abbrev pub is_inherited : Text → Bool
is_inherited key = contains object_prototype key

-- `table[value]` where `value in table`, and otherwise the value for what is unknown.
unfoldable pub look_up : {A : Type 0} → List (Text × A) → Text → A → Entry A
look_up [] value unknown = if is_inherited value then inherited else own unknown
look_up ((key, meta) ∷ table) value unknown =
    if key == value then own meta else look_up table value unknown

-- `classificationMeta` and `levelMeta`.
abbrev pub classification_meta : List (Text × ClassificationMeta)
classification_meta =
    (
      units "system",
      record { label = units "系统日志"; tone = "bg-sky-100 text-sky-700"; dot = "bg-sky-300" },
    )
    ∷ (
      units "business",
      record {
        label = units "业务日志";
        tone = "bg-emerald-100 text-emerald-700";
        dot = "bg-emerald-300";
      },
    )
    ∷ (
      units "security",
      record { label = units "安全日志"; tone = "bg-rose-100 text-rose-700"; dot = "bg-rose-300" },
    )
    ∷ []

abbrev pub level_meta : List (Text × LevelMeta)
level_meta =
    (units "debug", record { label = units "DEBUG" })
    ∷ (units "info", record { label = units "INFO" })
    ∷ (units "warn", record { label = units "WARN" })
    ∷ (units "error", record { label = units "ERROR" })
    ∷ []

abbrev parenthesised : Text → Text → Text
parenthesised label value =
    if is_empty value then label else label ++ (units "(" ++ (value ++ units ")"))

unfoldable pub get_classification_meta : Text → Entry ClassificationMeta
get_classification_meta classification = look_up classification_meta classification (record {
  label = parenthesised (units "未知分类") classification;
  tone = "bg-slate-100 text-slate-700";
  dot = "bg-slate-300";
})

module _ (upper : Text → Text) where
  unfoldable pub get_level_meta : Text → Entry LevelMeta
  get_level_meta level = look_up level_meta level (record {
    label =
        if is_empty level
        then units "UNKNOWN"
        else units "UNKNOWN" ++ (units "(" ++ (upper level ++ units ")"));
  })

-- `label` of such a value; `undefined` is none.
abbrev pub classification_label : Entry ClassificationMeta → Option Text
classification_label (own meta) = some meta.label
classification_label inherited = none

abbrev pub level_label : Entry LevelMeta → Option Text
level_label (own meta) = some meta.label
level_label inherited = none

module _ (lower upper date_time date_time_ms : Text → Text) where
  -- `formatLogLine`; a template prints `undefined` as that word.
  unfoldable pub format_log_line : AppLogItem → Text
  format_log_line item =
      let bar = units " | " in
      let classification =
        or_else (classification_label (get_classification_meta item.classification))
          (units "undefined") in
      let level = or_else (level_label (get_level_meta upper item.level)) (units "undefined") in
      date_time_ms item.created_at
      ++ (bar ++ (classification ++ (bar ++ (level ++ (bar ++ item.message)))))

  -- The disjunction at the end of `matchesLogKeyword`, for labels that are texts.
  unfoldable pub some_part_includes : AppLogItem → Text → Text → Text → Bool
  some_part_includes item classification level keyword =
      includes (lower item.message) keyword
      || includes (lower item.classification) keyword
      || includes (lower classification) keyword
      || includes (lower item.level) keyword
      || includes (lower level) keyword
      || includes (lower (date_time item.created_at)) keyword
      || includes (lower (date_time_ms item.created_at)) keyword

  -- `matchesLogKeyword`; none stands for the `TypeError` of `undefined.toLowerCase()`.
  unfoldable pub matches_log_keyword : AppLogItem → Text → Option Bool
  matches_log_keyword item keyword =
      let normalized_keyword = lower (trim keyword) in
      if is_empty normalized_keyword
      then some true
      else elim (classification_label (get_classification_meta item.classification)) [
        | none ↦ none
        | some classification ↦ elim (level_label (get_level_meta upper item.level)) [
          | none ↦ none
          | some level ↦ some (some_part_includes item classification level normalized_keyword)
        ]
      ]
