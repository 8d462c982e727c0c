-- ===== src/Examples/Tests.antt =====
-- The code on fixed inputs.

use testhub.Model.{passed, failed, cancelled, step_result, nil, state_eq}
use testhub.Engine.Run.Scenarios.{note_stop}
use testhub.Base.{◌≡◌, refl, true, false, [], ◌∷◌, some, codes, text_eq}
use testhub.StringUtil.{
  trim_start, trim_end, is_space, starts_with, is_alpha, is_alnum, to_lower, lower_byte,
}
use testhub.TagFilter.{
  eval, parse, matches, all, combine, is_valid, tag, either, negated, parse_or, consume, take_token,
  scan_tag, close, tag_prefix, tag_suffix, ends_tag,
}

matches_keyword : matches (parse (codes "smoke and !slow")).0 (codes "Smoke" ∷ []) ≡ true
unfolding parse matches eval trim_start trim_end is_space is_alpha is_alnum parse_or consume
    take_token starts_with scan_tag tag_prefix tag_suffix ends_tag to_lower lower_byte text_eq
matches_keyword = refl

-- A tag that begins with a keyword and a dash is read as the keyword and a tag.
parse_not_dash : (parse (codes "not-ready")).0.root ≡ some (negated (tag (codes "-ready")))
unfolding parse trim_start trim_end is_space is_alpha is_alnum parse_or consume take_token
    starts_with scan_tag tag_prefix tag_suffix ends_tag
parse_not_dash = refl

-- An expression that is not valid by itself passes where the brackets of `all` complete it.
parse_unbalanced : is_valid (parse (codes "a) | (b")).0 ≡ false
unfolding parse trim_start trim_end is_space is_alpha is_alnum parse_or consume take_token
    starts_with scan_tag tag_prefix tag_suffix ends_tag
parse_unbalanced = refl

all_unbalanced :
    (all (codes "a) | (b" ∷ [])).0.root ≡ some (either (tag (codes "a")) (tag (codes "b")))
unfolding all combine parse trim_start trim_end is_space is_alpha is_alnum parse_or consume
    take_token starts_with scan_tag tag_prefix tag_suffix ends_tag close
all_unbalanced = refl

-- A step that the cancel flag stops before its first attempt makes its scenario fail.
note_cancelled :
    (note_stop
      (record { state = passed; error_message = []; stop = false })
      (step_result [] [] cancelled (codes "Cancelled") [] 0 1 [] nil false)).state
    ≡ failed
unfolding note_stop state_eq
note_cancelled = refl
