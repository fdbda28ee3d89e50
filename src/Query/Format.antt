-- ===== src/Query/Format.antt =====
-- engine/query/format_expr.py. What str makes of numbers, tuples and bytes, and of a parameter node, is
-- given.
use soup_db.Common.{ℕ, Bool, true, false, [], ◌∷◌, ◌++◌, ◌==◌, if◌then◌else◌}
use soup_db.Common.Texts.{same_text}
use soup_db.Common.Utf8.{Text}
use soup_db.Values.{Value}
use soup_db.Query.Ast.{
  Expr, Exprs, literal, parameter, column_ref, star, compare, binary, is_null, logical, not_expr,
  between, in_expr, like, match_expr, similar_to, search_expr, score, bound_score, call, call_star,
  point, distance, polygon, intersects, nil, cons,
}

-- `str`
pub record Str : Type 0 where
  pub of_value : Value → Text
  pub of_parameter : ℕ → Text

abbrev null_text : Text
null_text = 78 ∷ 85 ∷ 76 ∷ 76 ∷ []

abbrev true_text : Text
true_text = 84 ∷ 82 ∷ 85 ∷ 69 ∷ []

abbrev false_text : Text
false_text = 70 ∷ 65 ∷ 76 ∷ 83 ∷ 69 ∷ []

abbrev similar_to_text : Text
similar_to_text = 83 ∷ 73 ∷ 77 ∷ 73 ∷ 76 ∷ 65 ∷ 82 ∷ 95 ∷ 84 ∷ 79 ∷ 40 ∷ []

abbrev k_text : Text
k_text = 44 ∷ 32 ∷ 107 ∷ 61 ∷ []

abbrev search_text : Text
search_text = 83 ∷ 69 ∷ 65 ∷ 82 ∷ 67 ∷ 72 ∷ 40 ∷ []

abbrev match_text : Text
match_text = 77 ∷ 65 ∷ 84 ∷ 67 ∷ 72 ∷ 40 ∷ []

abbrev similarity_score_text : Text
similarity_score_text =
    83 ∷ 73 ∷ 77 ∷ 73 ∷ 76 ∷ 65 ∷ 82 ∷ 73 ∷ 84 ∷ 89 ∷ 95 ∷ 83 ∷ 67 ∷ 79 ∷ 82 ∷ 69 ∷ 40 ∷ 41 ∷ []

abbrev score_text : Text
score_text = 83 ∷ 67 ∷ 79 ∷ 82 ∷ 69 ∷ 40 ∷ 41 ∷ []

abbrev vector_text : Text
vector_text = 118 ∷ 101 ∷ 99 ∷ 116 ∷ 111 ∷ 114 ∷ []

abbrev not_text : Text
not_text = 78 ∷ 79 ∷ 84 ∷ 32 ∷ []

abbrev is_text : Text
is_text = 32 ∷ 73 ∷ 83 ∷ 32 ∷ []

abbrev between_text : Text
between_text = 32 ∷ 66 ∷ 69 ∷ 84 ∷ 87 ∷ 69 ∷ 69 ∷ 78 ∷ 32 ∷ []

abbrev and_text : Text
and_text = 32 ∷ 65 ∷ 78 ∷ 68 ∷ 32 ∷ []

abbrev in_text : Text
in_text = 32 ∷ 73 ∷ 78 ∷ 32 ∷ 40 ∷ []

abbrev like_text : Text
like_text = 32 ∷ 76 ∷ 73 ∷ 75 ∷ 69 ∷ 32 ∷ []

abbrev distinct_text : Text
distinct_text = 68 ∷ 73 ∷ 83 ∷ 84 ∷ 73 ∷ 78 ∷ 67 ∷ 84 ∷ 32 ∷ []

abbrev point_text : Text
point_text = 80 ∷ 79 ∷ 73 ∷ 78 ∷ 84 ∷ 40 ∷ []

abbrev distance_text : Text
distance_text = 100 ∷ 105 ∷ 115 ∷ 116 ∷ 97 ∷ 110 ∷ 99 ∷ 105 ∷ 97 ∷ 40 ∷ []

abbrev polygon_text : Text
polygon_text = 80 ∷ 79 ∷ 76 ∷ 89 ∷ 71 ∷ 79 ∷ 78 ∷ 40 ∷ []

abbrev intersects_text : Text
intersects_text = 105 ∷ 110 ∷ 116 ∷ 101 ∷ 114 ∷ 115 ∷ 101 ∷ 99 ∷ 116 ∷ 115 ∷ 40 ∷ []

abbrev comma_text : Text
comma_text = 44 ∷ 32 ∷ []

abbrev open_text : Text
open_text = 40 ∷ []

abbrev close_text : Text
close_text = 41 ∷ []

abbrev space_text : Text
space_text = 32 ∷ []

abbrev star_text : Text
star_text = 42 ∷ []

-- `value.replace("'", "''")`
unfoldable pub double_quotes : Text → Text
double_quotes [] = []
double_quotes (c ∷ text) =
    let rest = double_quotes text in if c == 39 then 39 ∷ 39 ∷ rest else c ∷ rest

unfoldable pub quoted : Text → Text
unfolding double_quotes
quoted text = 39 ∷ double_quotes text ++ (39 ∷ [])

unfoldable score_call : Text → Text
unfolding same_text
score_call kind = if same_text kind vector_text then similarity_score_text else score_text

unfoldable pub is_empty_text : Text → Bool
is_empty_text [] = true
is_empty_text text = false

module _ (str : Str) where
  -- `_literal`
  unfoldable pub format_literal : Value → Text
  unfolding quoted
  format_literal Value.null = null_text
  format_literal (Value.bool b) = if b then true_text else false_text
  format_literal (Value.text t) = quoted t
  format_literal v = str.of_value v

  unfoldable mutual
    unfolding format_literal score_call is_empty_text

    pub format_expr : Expr → Text
    format_expr (literal v) = format_literal v
    format_expr (column_ref name) = name
    format_expr star = star_text
    format_expr (similar_to source k) =
        similar_to_text ++ format_expr source ++ k_text ++ format_literal k ++ close_text
    format_expr (search_expr name query) =
        search_text ++ name ++ comma_text ++ format_expr query ++ close_text
    format_expr (match_expr name query) =
        match_text ++ name ++ comma_text ++ format_expr query ++ close_text
    format_expr (score kind) = score_call kind
    format_expr (bound_score position kind) = score_call kind
    format_expr (compare a op b) = format_expr a ++ space_text ++ op ++ space_text ++ format_expr b
    format_expr (binary a op b) = format_expr a ++ space_text ++ op ++ space_text ++ format_expr b
    format_expr (logical a op b) =
        open_text ++ format_expr a ++ space_text ++ op ++ space_text ++ format_expr b ++ close_text
    format_expr (not_expr a) = not_text ++ format_expr a
    format_expr (is_null a negated) =
        format_expr a ++ is_text ++ (if negated then not_text else []) ++ null_text
    format_expr (between a lo hi) =
        format_expr a ++ between_text ++ format_expr lo ++ and_text ++ format_expr hi
    format_expr (in_expr a items) = format_expr a ++ in_text ++ format_items items ++ close_text
    format_expr (like a b) = format_expr a ++ like_text ++ format_expr b
    format_expr (call name a distinct) =
        name ++ open_text ++ (if distinct then distinct_text else []) ++ format_expr a ++ close_text
    format_expr (call_star name distinct) =
        name ++ open_text ++ (if distinct then distinct_text else []) ++ star_text ++ close_text
    format_expr (point a b) =
        point_text ++ format_expr b ++ comma_text ++ format_expr a ++ close_text
    format_expr (distance a b metric) =
        distance_text
        ++ format_expr a
        ++ comma_text
        ++ format_expr b
        ++ (if is_empty_text metric then [] else comma_text ++ (39 ∷ metric ++ (39 ∷ [])))
        ++ close_text
    format_expr (polygon vertices) = polygon_text ++ format_items vertices ++ close_text
    format_expr (intersects a b) =
        intersects_text ++ format_expr a ++ comma_text ++ format_expr b ++ close_text
    format_expr (parameter index) = str.of_parameter index

    -- `", ".join(...)`
    pub format_items : Exprs → Text
    format_items nil = []
    format_items (cons a items) = format_more (format_expr a) items

    format_more : Text → Exprs → Text
    format_more first nil = first
    format_more first (cons a items) = first ++ comma_text ++ format_more (format_expr a) items
