-- ===== src/Query/Evaluator/Tests.antt =====
-- Runs of engine/query/evaluator.py on a row of two columns.
use soup_db.Query.Order.{
  pair_of, bytes_of, text_of, bool_of, compare_int, compare_exact, order_exact, number_of, both,
  order,
}
use soup_db.Common.{◌≡◌, refl, true, false, none, List, [], ◌∷◌, Exc, ok, raise}
use soup_db.Common.Utf8.{Text}
use soup_db.Common.Int.{pos}
use soup_db.Values.{Value, ColumnDef, ColumnType}
use soup_db.Query.Ast.{Expr, compare, column_ref, literal, between, logical}
use soup_db.Query.Evaluator.{
  ordered, type_of, Geometry, Datum, plain, evaluate, op_eq, op_lt, op_le, op_gt, op_ge, op_ne,
  op_and, compare_values, between_values,
}
use soup_db.Query.Evaluator.Comparisons.{compare_values-swap, between_values-compare}

abbrev flat : Geometry
flat = record {
  distance = λ p q metric. ok 0;
  make_polygon = λ vertices. ok vertices;
  point_in_polygon = λ p vertices. ok true;
}

abbrev column_a : Text
column_a = 97 ∷ []

abbrev two_columns : List ColumnDef
two_columns =
    record { name = column_a; type_name = ColumnType.int; length = none }
    ∷ record { name = 98 ∷ []; type_name = ColumnType.float; length = none }
    ∷ []

abbrev row : List Value
row = Value.int (pos 3) ∷ Value.float 0x4000000000000000 ∷ []

-- `a > b AND a BETWEEN 1 AND 3`, of the row (3, 2.0)
abbrev condition : Expr
condition =
    logical (compare (column_ref column_a) op_gt (column_ref (98 ∷ []))) op_and
      (between (column_ref column_a) (literal (Value.int (pos 1))) (literal (Value.int (pos 3))))

condition_holds : evaluate flat condition row two_columns ≡ ok (plain (Value.bool true))
unfolding evaluate type_of order both number_of order_exact compare_exact compare_int
condition_holds = refl

abbrev three : Datum
three = plain (Value.int (pos 3))

abbrev two_as_float : Datum
two_as_float = plain (Value.float 0x4000000000000000)

compare_values-swap_example :
    (compare_values three op_lt two_as_float ≡ compare_values two_as_float op_gt three)
    × (compare_values three op_le two_as_float ≡ compare_values two_as_float op_ge three)
    × (compare_values three op_eq two_as_float ≡ compare_values two_as_float op_eq three)
    × (compare_values three op_ne two_as_float ≡ compare_values two_as_float op_ne three)
compare_values-swap_example = compare_values-swap three two_as_float

three_ge_two : compare_values three op_ge two_as_float ≡ ok true
unfolding compare_values type_of ordered order both number_of order_exact compare_exact compare_int
three_ge_two = refl

three_le_two : compare_values three op_le two_as_float ≡ ok false
unfolding compare_values type_of ordered order both number_of order_exact compare_exact compare_int
three_le_two = refl

between_values-compare_example : between_values three two_as_float two_as_float ≡ ok false
unfolding soup_db.Query.Evaluator.is_none
between_values-compare_example =
    between_values-compare three two_as_float two_as_float refl refl refl three_ge_two three_le_two

between_nulls :
    between_values (plain Value.null) (plain Value.null) (plain Value.null) ≡ raise Exc.type_error
unfolding between_values type_of order both number_of bool_of text_of bytes_of pair_of
between_nulls = refl
