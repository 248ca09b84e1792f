-- ===== src/Nodes/Region/Flags.antt =====
-- `extractFlagCountry` and `FLAG_TO_REGION` of region.ts.
use poolx.Common.{
  ℕ, ◌+◌, ◌-◌, ◌*◌, Bool, ◌&&◌, List, [], ◌∷◌, Option, none, some, leb, ◌==◌, list_eq,
  if◌then◌else◌,
}
use poolx.Common.Text.{Text, units}
use poolx.Nodes.Region.Labels.{
  RegionLabel, hong_kong, taiwan, japan, singapore, korea, usa, uk, germany, france, canada,
  australia, russia, india, turkey, argentina, brazil, netherlands, malaysia, thailand, vietnam,
  philippines, indonesia,
}

abbrev pub flag_to_region : List (Text × RegionLabel)
flag_to_region =
    (units "HK", hong_kong)
    ∷ (units "TW", taiwan)
    ∷ (units "JP", japan)
    ∷ (units "SG", singapore)
    ∷ (units "KR", korea)
    ∷ (units "US", usa)
    ∷ (units "GB", uk)
    ∷ (units "UK", uk)
    ∷ (units "DE", germany)
    ∷ (units "FR", france)
    ∷ (units "CA", canada)
    ∷ (units "AU", australia)
    ∷ (units "RU", russia)
    ∷ (units "IN", india)
    ∷ (units "TR", turkey)
    ∷ (units "AR", argentina)
    ∷ (units "BR", brazil)
    ∷ (units "NL", netherlands)
    ∷ (units "MY", malaysia)
    ∷ (units "TH", thailand)
    ∷ (units "VN", vietnam)
    ∷ (units "PH", philippines)
    ∷ (units "ID", indonesia)
    ∷ []

unfoldable pub lookup_flag : Text → List (Text × RegionLabel) → Option RegionLabel
lookup_flag k [] = none
lookup_flag k ((j, r) ∷ m) = if j == k then some r else lookup_flag k m

abbrev pub is_high : ℕ → Bool
is_high c = leb 0xd800 c && leb c 0xdbff

abbrev pub is_low : ℕ → Bool
is_low c = leb 0xdc00 c && leb c 0xdfff

abbrev pub code_point : ℕ → ℕ → ℕ
code_point hi lo = 0x10000 + (hi - 0xd800) * 0x400 + (lo - 0xdc00)

-- The values of `codePointAt` at the places that the loop visits: `i` moves by 2 behind a code
-- point above 0xffff, which is a pair of surrogates, and by 1 behind any other unit.
unfoldable pub code_points : Text → List ℕ
code_points [] = []
code_points (c ∷ []) = c ∷ []
code_points (c ∷ d ∷ s) =
    let pair = code_point c d ∷ code_points s in
    let single = c ∷ code_points (d ∷ s) in if is_high c && is_low d then pair else single

abbrev pub is_indicator : ℕ → Bool
is_indicator c = leb 0x1f1e6 c && leb c 0x1f1ff

abbrev pub letter : ℕ → ℕ
letter c = 65 + (c - 0x1f1e6)

-- The loop, over the code points: the first two regional indicators that are neighbours.
unfoldable pub find_flag : List ℕ → Option Text
find_flag [] = none
find_flag (c ∷ []) = none
find_flag (c ∷ d ∷ cs) =
    let rest = find_flag (d ∷ cs) in
    if is_indicator c && is_indicator d then some (letter c ∷ letter d ∷ []) else rest

unfoldable pub extract_flag_country : Text → Option Text
extract_flag_country name = find_flag (code_points name)
