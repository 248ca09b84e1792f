-- ===== src/Nodes/Region/Keywords.antt =====
-- `ZH_KEYWORDS` and `EN_KEYWORDS` of region.ts, with the regular expressions of the latter: words
-- parted by `\s*`, bounded by `\b` on both sides, matched without regard to ASCII case.
use poolx.Common.{
  ℕ, ◌+◌, Bool, false, not, ◌&&◌, ◌||◌, List, [], ◌∷◌, Option, none, some, String, leb, ◌==◌,
  nat_eq, if◌then◌else◌, any,
}
use poolx.Common.Text.{Text, units, trim_start}
use poolx.Nodes.Region.Labels.{
  RegionLabel, hong_kong, taiwan, japan, singapore, korea, usa, uk, germany, france, canada,
  australia, russia, india, turkey, argentina, brazil, netherlands, malaysia, thailand, vietnam,
  philippines, indonesia,
}

abbrev pub zh_keywords : List (Text × RegionLabel)
zh_keywords =
    (units "香港", hong_kong)
    ∷ (units "臺灣", taiwan)
    ∷ (units "台湾", taiwan)
    ∷ (units "台北", taiwan)
    ∷ (units "日本", japan)
    ∷ (units "东京", japan)
    ∷ (units "大阪", japan)
    ∷ (units "新加坡", singapore)
    ∷ (units "狮城", singapore)
    ∷ (units "韩国", korea)
    ∷ (units "首尔", korea)
    ∷ (units "美国", usa)
    ∷ (units "洛杉矶", usa)
    ∷ (units "硅谷", usa)
    ∷ (units "英国", uk)
    ∷ (units "伦敦", uk)
    ∷ (units "德国", germany)
    ∷ (units "法兰克福", germany)
    ∷ (units "法国", france)
    ∷ (units "巴黎", france)
    ∷ (units "加拿大", canada)
    ∷ (units "澳大利亚", australia)
    ∷ (units "澳洲", australia)
    ∷ (units "俄罗斯", russia)
    ∷ (units "莫斯科", russia)
    ∷ (units "印度", india)
    ∷ (units "孟买", india)
    ∷ (units "土耳其", turkey)
    ∷ (units "阿根廷", argentina)
    ∷ (units "巴西", brazil)
    ∷ (units "荷兰", netherlands)
    ∷ (units "马来西亚", malaysia)
    ∷ (units "泰国", thailand)
    ∷ (units "越南", vietnam)
    ∷ (units "菲律宾", philippines)
    ∷ (units "印尼", indonesia)
    ∷ (units "印度尼西亚", indonesia)
    ∷ []

-- An alternative of a pattern: its words, between which `\s*` stands.
abbrev pub Phrase : Type 0
Phrase = List Text

abbrev word : String → Phrase
word w = units w ∷ []

abbrev words : String → String → Phrase
words v w = units v ∷ units w ∷ []

abbrev pub en_keywords : List (List Phrase × RegionLabel)
en_keywords =
    (word "hk" ∷ words "hong" "kong" ∷ [], hong_kong)
    ∷ (word "tw" ∷ word "taiwan" ∷ [], taiwan)
    ∷ (word "jp" ∷ word "japan" ∷ word "tokyo" ∷ word "osaka" ∷ [], japan)
    ∷ (word "sg" ∷ word "singapore" ∷ [], singapore)
    ∷ (word "kr" ∷ word "korea" ∷ word "seoul" ∷ [], korea)
    ∷ (
      word "us"
          ∷ word "usa"
          ∷ words "united" "states"
          ∷ word "america"
          ∷ words "los" "angeles"
          ∷ words "new" "york"
          ∷ [],
      usa,
    )
    ∷ (
      word "uk" ∷ word "britain" ∷ word "london" ∷ word "england" ∷ words "united" "kingdom" ∷ [],
      uk,
    )
    ∷ (word "de" ∷ word "germany" ∷ word "frankfurt" ∷ word "berlin" ∷ [], germany)
    ∷ (word "fr" ∷ word "france" ∷ word "paris" ∷ [], france)
    ∷ (word "ca" ∷ word "canada" ∷ word "toronto" ∷ [], canada)
    ∷ (word "au" ∷ word "australia" ∷ word "sydney" ∷ [], australia)
    ∷ (word "ru" ∷ word "russia" ∷ word "moscow" ∷ [], russia)
    ∷ (word "in" ∷ word "india" ∷ word "mumbai" ∷ [], india)
    ∷ (word "tr" ∷ word "turkey" ∷ word "istanbul" ∷ [], turkey)
    ∷ (word "ar" ∷ word "argentina" ∷ [], argentina)
    ∷ (word "br" ∷ word "brazil" ∷ [], brazil)
    ∷ (word "nl" ∷ word "netherlands" ∷ word "amsterdam" ∷ [], netherlands)
    ∷ (word "my" ∷ word "malaysia" ∷ [], malaysia)
    ∷ (word "th" ∷ word "thailand" ∷ word "bangkok" ∷ [], thailand)
    ∷ (word "vn" ∷ word "vietnam" ∷ [], vietnam)
    ∷ (word "ph" ∷ word "philippines" ∷ [], philippines)
    ∷ (word "id" ∷ word "indonesia" ∷ word "jakarta" ∷ [], indonesia)
    ∷ []

-- `\w`: the letters, digits and underscore of ASCII.
unfoldable pub is_word_unit : ℕ → Bool
is_word_unit c =
    (leb b'0' c && leb c b'9')
    || (leb b'A' c && leb c b'Z')
    || (leb b'a' c && leb c b'z')
    || c == b'_'

-- Without the flag `u`, no unit beyond ASCII folds to an ASCII letter.
unfoldable pub fold_case : ℕ → ℕ
fold_case c = if leb b'A' c && leb c b'Z' then c + 32 else c

-- The text behind a word that stands at the front.
unfoldable pub after_word : Text → Text → Option Text
after_word [] s = some s
after_word (k ∷ ks) [] = none
after_word (k ∷ ks) (c ∷ s) = if fold_case c == k then after_word ks s else none

unfoldable pub after_phrase : Phrase → Text → Option Text
after_phrase [] s = some s
after_phrase (w ∷ []) s = after_word w s
after_phrase (w ∷ v ∷ ws) s = elim (after_word w s) [
  | none ↦ none
  | some rest ↦ after_phrase (v ∷ ws) (trim_start rest)
]

abbrev starts_inside : Text → Bool
starts_inside [] = false
starts_inside (c ∷ s) = is_word_unit c

-- One of the alternatives stands at the front, and a word ends behind it.
unfoldable pub matches_here : List Phrase → Text → Bool
matches_here alternatives s =
    any (λ p. elim (after_phrase p s) [ none ↦ false | some rest ↦ not (starts_inside rest) ])
      alternatives

-- `pattern.test`, over the places of the text; `inside` says that a word unit stands before.
unfoldable pub test_from : List Phrase → Bool → Text → Bool
test_from alternatives inside [] = false
test_from alternatives inside (c ∷ s) =
    (not inside && matches_here alternatives (c ∷ s)) || test_from alternatives (is_word_unit c) s

unfoldable pub pattern_test : List Phrase → Text → Bool
pattern_test alternatives name = test_from alternatives false name
