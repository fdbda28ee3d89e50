-- ===== src/Query/Like/Tests.antt =====
-- Runs of `_like` of engine/query/evaluator.py.
use soup_db.Common.{◌≡◌, refl, ◌↔◌, true, [], ◌∷◌, arith}
use soup_db.Common.Utf8.{Text}
use soup_db.Query.Like.{
  like_match, Matches, OneLine, like_match_iff, like_match_newline, with_newline,
}

-- `a%`
abbrev starts_with_a : Text
starts_with_a = 97 ∷ 37 ∷ []

abbrev ab : Text
ab = 97 ∷ 98 ∷ []

ab_matches : like_match starts_with_a ab ≡ true
unfolding like_match
ab_matches = refl

ab-OneLine : OneLine ab
ab-OneLine = (omega arith, (omega arith, tt))

like_match_iff_example : (like_match starts_with_a ab ≡ true) ↔ Matches starts_with_a ab
like_match_iff_example = like_match_iff starts_with_a ab ab-OneLine

like_match_newline_example : like_match starts_with_a (with_newline ab) ≡ true
like_match_newline_example = like_match_newline starts_with_a ab ab-OneLine ab_matches
