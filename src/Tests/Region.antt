-- ===== src/Tests/Region.antt =====
-- Inputs of tests/unit/region.test.ts.
use poolx.Common.{◌≡◌, refl}
use poolx.Common.Text.{units, includes, starts_with, trim_start, is_space}
use poolx.Nodes.Region.Labels.{hong_kong, japan, usa, taiwan, other, india}
use poolx.Nodes.Region.Keywords.{
  is_word_unit, fold_case, after_word, after_phrase, matches_here, test_from, pattern_test,
}
use poolx.Nodes.Region.Flags.{lookup_flag, code_points, find_flag, extract_flag_country}
use poolx.Nodes.Region.Detection.{first_keyword, first_pattern, flag_region, detect_region}

detect_region_runs :
    (detect_region (units "🇭🇰 Japan-Test") ≡ hong_kong)
    × (detect_region (units "🇺🇸-LA-01") ≡ usa)
    × (detect_region (units "台北 IPLC 01") ≡ taiwan)
    × (detect_region (units "Hong  Kong 3") ≡ hong_kong)
    × (detect_region (units "JPX osaka") ≡ japan)
    × (detect_region (units "random-node-xyz") ≡ other)
    × (detect_region (units "印度尼西亚 01") ≡ india)
unfolding detect_region flag_region first_keyword first_pattern lookup_flag code_points find_flag
    extract_flag_country is_word_unit fold_case after_word after_phrase matches_here test_from
    pattern_test includes starts_with trim_start is_space
detect_region_runs = (refl, refl, refl, refl, refl, refl, refl)
