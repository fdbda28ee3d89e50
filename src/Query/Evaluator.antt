-- ===== src/Query/Evaluator.antt =====
-- engine/query/evaluator.py. The names of the operators are texts, as in the source. Geometry (distances,
-- polygons) is given by its functions. The values have no identity: where Python's `in` and the order of
-- tuples first look whether two objects are one, a NaN here equals nothing.
pub mod Comparisons
mod Tests
use soup_db.Common.{
  ℕ, zero, suc, ◌+◌, ◌/◌, ◌%◌, ◌^◌, Bool, true, false, ◌&&◌, ◌||◌, not, Option, none, some, List,
  [], ◌∷◌, Exc, Result, ok, raise, ◌>>=◌, ◌>>◌, require, or_raise, length, ◌==◌, if◌then◌else◌,
}
use soup_db.Common.Texts.{same_text}
use soup_db.Common.Utf8.{Text}
use soup_db.Values.{Coord, Value, ColumnType, ColumnDef, as_float}
use soup_db.Query.Ast.{
  Expr, Exprs, literal, parameter, column_ref, star, compare, binary, is_null, logical, not_expr,
  between, in_expr, like, match_expr, similar_to, search_expr, score, bound_score, call, call_star,
  point, distance, polygon, intersects, nil, cons,
}
use soup_db.Query.Order.{
  Rel, is_less, is_same, is_greater, at_most, at_least, order, compare_exact, exact_float,
}
use soup_db.Query.Like.{like_match}

-- A point, by the bits of its coordinates.
abbrev pub Point : Type 0
Point = ℕ × ℕ

-- The functions of engine/algorithms/spatial and engine/query/spatial_metrics.py that are called.
pub record Geometry : Type 0 where
  pub distance : Point → Point → Text → Result ℕ
  pub make_polygon : List Point → Result (List Point)
  pub point_in_polygon : Point → List Point → Result Bool

-- What an expression evaluates to.
pub data Datum : Type 0 where
  plain : Value → Datum
  shape : List Point → Datum

-- `_column_value`
unfoldable pub column_value : Text → List Value → List ColumnDef → Result Datum
unfolding same_text
column_value name row [] = raise Exc.query_execution_error
column_value name [] (column ∷ schema) = raise Exc.query_execution_error
column_value name (value ∷ row) (column ∷ schema) =
    if same_text column.name name then ok (plain value) else column_value name row schema

-- `type(value)`
unfoldable pub type_of : Datum → ℕ
type_of (plain Value.null) = 0
type_of (plain (Value.int n)) = 1
type_of (plain (Value.float w)) = 2
type_of (plain (Value.bool b)) = 3
type_of (plain (Value.text t)) = 4
type_of (plain (Value.pair a b)) = 5
type_of (plain (Value.bytes b)) = 6
type_of (plain Value.other) = 7
type_of (shape vertices) = 8

-- `_is_number`, on a type
unfoldable pub is_number_type : ℕ → Bool
is_number_type t = t == 1 || t == 2

-- The tests of `_require_same_type`.
unfoldable pub same_type : Datum → Datum → Bool
unfolding is_number_type
same_type a b = type_of a == type_of b || (is_number_type (type_of a) && is_number_type (type_of b))

unfoldable pub require_same_type : Datum → Datum → Result (Unit {0})
unfolding same_type
require_same_type a b = require (same_type a b) Exc.query_execution_error

abbrev pub op_eq : Text
op_eq = 61 ∷ []

abbrev pub op_ne : Text
op_ne = 60 ∷ 62 ∷ []

abbrev pub op_not_eq : Text
op_not_eq = 33 ∷ 61 ∷ []

abbrev pub op_lt : Text
op_lt = 60 ∷ []

abbrev pub op_le : Text
op_le = 60 ∷ 61 ∷ []

abbrev pub op_gt : Text
op_gt = 62 ∷ []

abbrev pub op_ge : Text
op_ge = 62 ∷ 61 ∷ []

abbrev pub op_and : Text
op_and = 65 ∷ 78 ∷ 68 ∷ []

-- `_COMPARISONS`
unfoldable pub is_comparison : Text → Bool
unfolding same_text
is_comparison op =
    same_text op op_eq
    || same_text op op_ne
    || same_text op op_not_eq
    || same_text op op_lt
    || same_text op op_le
    || same_text op op_gt
    || same_text op op_ge

unfoldable pub order_of : Datum → Datum → Option Rel
order_of (plain a) (plain b) = order a b
order_of a b = none

pub equal_points : List Point → List Point → Bool
equal_points [] [] = true
equal_points ((a, b) ∷ p) ((c, d) ∷ q) =
    is_same (compare_exact (exact_float a) (exact_float c))
    && is_same (compare_exact (exact_float b) (exact_float d))
    && equal_points p q
equal_points p q = false

unfoldable pub is_none : Datum → Bool
is_none (plain Value.null) = true
is_none a = false

unfoldable pub is_same_order : Option Rel → Bool
is_same_order none = false
is_same_order (some r) = is_same r

-- `left == right` of objects of one type, or of two numbers
unfoldable pub equal : Datum → Datum → Bool
unfolding order_of is_none is_same_order
equal (shape p) (shape q) = equal_points p q
equal a b = (is_none a && is_none b) || is_same_order (order_of a b)

-- An order comparison; objects without an order raise TypeError.
unfoldable pub ordered : (Rel → Bool) → Datum → Datum → Result Bool
unfolding order_of
ordered test a b = or_raise Exc.type_error (order_of a b) >>= λ r. ok (test r)

unfoldable pub compare_by : Text → Datum → Datum → Result Bool
unfolding same_text
compare_by op a b =
    if same_text op op_eq
    then ok (equal a b)
    else if same_text op op_ne || same_text op op_not_eq
    then ok (not (equal a b))
    else if same_text op op_lt
    then ordered is_less a b
    else if same_text op op_le
    then ordered at_most a b
    else if same_text op op_gt
    then ordered is_greater a b
    else ordered at_least a b

-- `_compare`
unfoldable pub compare_values : Datum → Text → Datum → Result Bool
unfolding is_comparison is_none require_same_type compare_by
compare_values a op b =
    require (is_comparison op) Exc.query_execution_error
    >> (if is_none a || is_none b then ok false else require_same_type a b >> compare_by op a b)

-- `_require_bool`
unfoldable pub require_bool : Datum → Result Bool
require_bool (plain (Value.bool b)) = ok b
require_bool a = raise Exc.query_execution_error

-- `lo <= value <= hi`
unfoldable pub in_range : Datum → Datum → Datum → Result Bool
unfolding ordered
in_range value lo hi =
    ordered at_most lo value >>= λ b. if b then ordered at_most value hi else ok false

unfoldable pub between_values : Datum → Datum → Datum → Result Bool
unfolding require_same_type in_range
between_values value lo hi =
    require_same_type value lo >> (require_same_type value hi >> in_range value lo hi)

pub require_each : Datum → List Datum → Result (Unit {0})
unfolding require_same_type
require_each value [] = ok tt
require_each value (item ∷ items) = require_same_type value item >> require_each value items

-- `value in items`
pub is_in : Datum → List Datum → Bool
unfolding equal
is_in value [] = false
is_in value (item ∷ items) = equal value item || is_in value items

-- `_like`
unfoldable pub like_values : Datum → Datum → Result Bool
like_values (plain (Value.text value)) (plain (Value.text pattern)) = ok (like_match pattern value)
like_values value pattern = raise Exc.query_execution_error

-- `_is_numeric`, and the value as a coordinate
unfoldable pub numeric : Datum → Result Coord
numeric (plain (Value.int n)) = ok (Coord.int n)
numeric (plain (Value.float w)) = ok (Coord.float w)
numeric a = raise Exc.query_execution_error

unfoldable pub make_point : Datum → Datum → Result Datum
unfolding numeric as_float
make_point x y = do
  a ← numeric x
  b ← numeric y
  v ← as_float a
  w ← as_float b
  ok (plain (Value.pair (Coord.float v) (Coord.float w)))

-- `_is_point_value`, and the point
unfoldable pub point_value : Datum → Option Point
point_value (plain (Value.pair (Coord.float a) (Coord.float b))) = some (a, b)
point_value a = none

-- `except ValueError as exc: raise QueryExecutionError`
unfoldable pub rename_value_error {ℓ} : {A : Type ℓ} → Result A → Result A
rename_value_error (raise Exc.value_error) = raise Exc.query_execution_error
rename_value_error r = r

-- `except Exception as exc: raise QueryExecutionError`
unfoldable pub rename_every_error {ℓ} : {A : Type ℓ} → Result A → Result A
rename_every_error (raise e) = raise Exc.query_execution_error
rename_every_error r = r

abbrev pub internal_score_name : Text
internal_score_name = 0 ∷ 114 ∷ 97 ∷ 110 ∷ 107 ∷ 101 ∷ 100 ∷ 95 ∷ 115 ∷ 99 ∷ 111 ∷ 114 ∷ 101 ∷ []

pub is_score_column : ColumnDef → Bool
unfolding same_text
is_score_column column = same_text column.name internal_score_name && elim column.type_name [
  | ColumnType.float ↦ true
  | ColumnType.int ↦ false
  | ColumnType.varchar ↦ false
  | ColumnType.text ↦ false
  | ColumnType.bool ↦ false
  | ColumnType.point ↦ false
]

-- A float that `math.isfinite` accepts.
unfoldable pub finite_score : Value → Result Datum
finite_score (Value.float w) =
    require (not (w / 2 ^ 52 % 2 ^ 11 == 2047)) Exc.query_execution_error
    >> ok (plain (Value.float w))
finite_score v = raise Exc.query_execution_error

pub at {ℓ} : {A : Type ℓ} → List A → ℕ → Result A
at [] i = raise Exc.query_execution_error
at (x ∷ xs) zero = ok x
at (x ∷ xs) (suc i) = at xs i

unfoldable pub bound_score_value : ℕ → List Value → List ColumnDef → Result Datum
unfolding at is_score_column finite_score
bound_score_value position row schema =
    require (position + 1 == length schema) Exc.query_execution_error
    >> (at schema position >>= λ column.
        require (is_score_column column) Exc.query_execution_error
        >> (at row position >>= finite_score))

abbrev pub truth : Result Bool → Result Datum
truth r = r >>= λ b. ok (plain (Value.bool b))

module _ (geometry : Geometry) where
  unfoldable pub distance_values : Datum → Datum → Text → Result Datum
  unfolding is_none point_value rename_value_error
  distance_values a b metric =
      if is_none a || is_none b
      then ok (plain Value.null)
      else or_raise Exc.query_execution_error (point_value a) >>= λ p.
          or_raise Exc.query_execution_error (point_value b) >>= λ q.
          rename_value_error (geometry.distance p q metric) >>= λ w. ok (plain (Value.float w))

  unfoldable pub intersects_values : Datum → Datum → Result Bool
  unfolding point_value rename_every_error
  intersects_values (shape a) (shape b) = raise Exc.query_execution_error
  intersects_values (plain a) (shape b) = do
    p ← or_raise Exc.query_execution_error (point_value (plain a))
    rename_every_error (geometry.point_in_polygon p b)
  intersects_values (shape a) (plain b) = do
    p ← or_raise Exc.query_execution_error (point_value (plain b))
    rename_every_error (geometry.point_in_polygon p a)
  intersects_values (plain a) (plain b) = raise Exc.query_execution_error

  unfoldable mutual
    unfolding bound_score_value column_value compare_values require_bool between_values require_each
        is_in like_values make_point point_value distance_values intersects_values same_text

    pub evaluate : Expr → List Value → List ColumnDef → Result Datum
    evaluate (literal v) row schema = ok (plain v)
    evaluate (bound_score position kind) row schema = bound_score_value position row schema
    evaluate (column_ref name) row schema = column_value name row schema
    evaluate (compare a op b) row schema = do
      x ← evaluate a row schema
      y ← evaluate b row schema
      truth (compare_values x op y)
    evaluate (logical a op b) row schema = do
      x ← evaluate a row schema >>= require_bool
      y ← evaluate b row schema >>= require_bool
      truth (ok (if same_text op op_and then x && y else x || y))
    evaluate (not_expr a) row schema = do
      x ← evaluate a row schema >>= require_bool
      truth (ok (not x))
    evaluate (between value lo hi) row schema = do
      x ← evaluate value row schema
      l ← evaluate lo row schema
      h ← evaluate hi row schema
      truth (between_values x l h)
    evaluate (in_expr value items) row schema = do
      x ← evaluate value row schema
      l ← evaluate_items items row schema
      truth (require_each x l >> ok (is_in x l))
    evaluate (like value pattern) row schema = do
      x ← evaluate value row schema
      y ← evaluate pattern row schema
      truth (like_values x y)
    evaluate (point a b) row schema = do
      x ← evaluate a row schema
      y ← evaluate b row schema
      make_point x y
    evaluate (distance a b metric) row schema = do
      x ← evaluate a row schema
      y ← evaluate b row schema
      distance_values x y metric
    evaluate (polygon vertices) row schema = do
      l ← evaluate_points vertices row schema
      p ← geometry.make_polygon l
      ok (shape p)
    evaluate (intersects a b) row schema = do
      x ← evaluate a row schema
      y ← evaluate b row schema
      truth (intersects_values x y)
    evaluate (parameter index) row schema = raise Exc.query_execution_error
    evaluate star row schema = raise Exc.query_execution_error
    evaluate (binary a op b) row schema = raise Exc.query_execution_error
    evaluate (is_null a negated) row schema = raise Exc.query_execution_error
    evaluate (match_expr name a) row schema = raise Exc.query_execution_error
    evaluate (similar_to a k) row schema = raise Exc.query_execution_error
    evaluate (search_expr name a) row schema = raise Exc.query_execution_error
    evaluate (score kind) row schema = raise Exc.query_execution_error
    evaluate (call name a distinct) row schema = raise Exc.query_execution_error
    evaluate (call_star name distinct) row schema = raise Exc.query_execution_error

    pub evaluate_items : Exprs → List Value → List ColumnDef → Result (List Datum)
    evaluate_items nil row schema = ok []
    evaluate_items (cons a items) row schema = do
      x ← evaluate a row schema
      l ← evaluate_items items row schema
      ok (x ∷ l)

    pub evaluate_points : Exprs → List Value → List ColumnDef → Result (List Point)
    evaluate_points nil row schema = ok []
    evaluate_points (cons a items) row schema = do
      x ← evaluate a row schema
      p ← or_raise Exc.query_execution_error (point_value x)
      l ← evaluate_points items row schema
      ok (p ∷ l)
