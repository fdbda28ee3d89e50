-- ===== src/Query/Ast.antt =====
-- engine/query/ast.py: the expressions. An optional argument of a node is two constructors, and the
-- column of a search predicate is its name.
use soup_db.Common.{ℕ, Bool}
use soup_db.Common.Utf8.{Text}
use soup_db.Values.{Value}

mutual
  pub data Expr : Type 0 where
    literal : Value → Expr
    parameter : ℕ → Expr
    column_ref : Text → Expr
    star : Expr
    compare : Expr → Text → Expr → Expr
    binary : Expr → Text → Expr → Expr
    is_null : Expr → Bool → Expr
    logical : Expr → Text → Expr → Expr
    not_expr : Expr → Expr
    between : Expr → Expr → Expr → Expr
    in_expr : Expr → Exprs → Expr
    like : Expr → Expr → Expr
    match_expr : Text → Expr → Expr
    similar_to : Expr → Value → Expr
    search_expr : Text → Expr → Expr
    score : Text → Expr
    bound_score : ℕ → Text → Expr
    call : Text → Expr → Bool → Expr
    call_star : Text → Bool → Expr
    point : Expr → Expr → Expr
    distance : Expr → Expr → Text → Expr
    polygon : Exprs → Expr
    intersects : Expr → Expr → Expr

  pub data Exprs : Type 0 where
    nil : Exprs
    cons : Expr → Exprs → Exprs
