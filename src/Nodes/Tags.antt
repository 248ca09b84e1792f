-- ===== src/Nodes/Tags.antt =====
-- Tags as the node page reads and extends them (components/nodes-page.tsx).
pub mod Laws
use poolx.Common.{
  Bool, true, false, not, List, [], ◌∷◌, ◌++◌, map, filter, if◌then◌else◌, is_empty, list_eq,
}
use poolx.Common.Text.{Text, units, split, join, trim}
use poolx.Common.Unique.{contains}

-- `text.split(',').map((item) => item.trim()).filter(Boolean)`.
unfoldable pub parse_tags : Text → List Text
parse_tags text = filter (λ t. not (is_empty t)) (map trim (split b',' text))

-- `PRESET_TAGS`.
abbrev pub preset_tags : List Text
preset_tags =
    units "hk"
    ∷ units "jp"
    ∷ units "sg"
    ∷ units "us"
    ∷ units "fast"
    ∷ units "premium"
    ∷ units "direct"
    ∷ []

-- `handleAddPresetTag`: the next text of the input.
unfoldable pub add_preset_tag : Text → Text → Text
add_preset_tag tags_input preset =
    let existing = parse_tags tags_input in
    if not (contains existing preset)
    then join (units ", ") (existing ++ preset ∷ [])
    else tags_input
