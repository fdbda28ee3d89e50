-- ===== src/Query/Params/Tests.antt =====
-- A run of engine/query/params.py: `a = $1`.
use soup_db.Common.{[], ◌∷◌}
use soup_db.Query.Ast.{Expr, compare, column_ref, parameter}

abbrev prepared : Expr
prepared = compare (column_ref (97 ∷ [])) (61 ∷ []) (parameter 1)
