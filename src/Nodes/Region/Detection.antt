-- ===== src/Nodes/Region/Detection.antt =====
-- `detectRegion`.
pub mod Laws
use poolx.Common.{List, [], ◌∷◌, Option, none, some, if◌then◌else◌, is_empty}
use poolx.Common.Text.{Text, includes}
use poolx.Nodes.Region.Labels.{RegionLabel, other}
use poolx.Nodes.Region.Keywords.{zh_keywords, Phrase, en_keywords, pattern_test}
use poolx.Nodes.Region.Flags.{lookup_flag, flag_to_region, extract_flag_country}

-- The two loops: the region of the first entry that the name meets.
unfoldable pub first_keyword : Text → List (Text × RegionLabel) → Option RegionLabel
first_keyword name [] = none
first_keyword name ((keyword, region) ∷ table) =
    if includes name keyword then some region else first_keyword name table

unfoldable pub first_pattern : Text → List (List Phrase × RegionLabel) → Option RegionLabel
first_pattern name [] = none
first_pattern name ((pattern, region) ∷ table) =
    if pattern_test pattern name then some region else first_pattern name table

-- `FLAG_TO_REGION[flag]`, where the name holds a flag.
unfoldable pub flag_region : Text → Option RegionLabel
flag_region name = elim (extract_flag_country name) [
  | none ↦ none
  | some flag ↦ lookup_flag flag flag_to_region
]

unfoldable pub detect_region : Text → RegionLabel
detect_region name = if is_empty name then other else elim (flag_region name) [
  | some region ↦ region
  | none ↦ elim (first_keyword name zh_keywords) [
    | some region ↦ region
    | none ↦ elim (first_pattern name en_keywords) [ some region ↦ region | none ↦ other ]
  ]
]
