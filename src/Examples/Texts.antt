-- ===== src/Examples/Texts.antt =====
-- Names, strings and tag filters.
use testhub.Base.{◌≡◌, ◌≢◌, refl, true, List, [], ◌∷◌, Text, codes, All, every}
use testhub.StringUtil.{is_space, trim_start, trim_end, starts_with, is_alpha}
use testhub.TagFilter.{
  parse, all, matches, is_valid, parse_or, fuel_for, starved, consume, take_token, scan_tag,
  tag_prefix, tag_suffix, ends_tag,
}
use testhub.TagFilter.Fuel.{parse_or-ne-starved}
use testhub.TagFilter.Combine.{all-matches}

abbrev csv : Text
csv = codes "a,b,,c"

abbrev padded : Text
padded = codes "  a b "

abbrev two_filters : List Text
two_filters = codes "smoke | fast" ∷ codes "!slow" ∷ []

two_filters-is_valid : All (λ e. is_valid (parse e).0 ≡ true) two_filters
unfolding parse trim_start trim_end is_space parse_or consume take_token starts_with scan_tag
    tag_prefix ends_tag tag_suffix is_alpha
two_filters-is_valid = (refl, (refl, tt))

all_example :
    (is_valid (all two_filters).0 ≡ true)
    × ((tags : List Text)
        → matches (all two_filters).0 tags ≡ every (λ e. matches (parse e).0 tags) two_filters)
all_example = all-matches two_filters two_filters-is_valid

fuel_example : parse_or (fuel_for (codes "a & (b | c")) (codes "a & (b | c") ≢ starved
fuel_example = parse_or-ne-starved (codes "a & (b | c")
