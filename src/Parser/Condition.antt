-- ===== src/Parser/Condition.antt =====
-- The comparisons of a WHERE clause: komfydb/parser.cc. `Sub` is the type of the pointers to plans of
-- subqueries.
use komfy_db.Base.{Bool, true, false, not, ◌&&◌, ◌||◌, if◌then◌else◌, Bytes, bytes_eq}
use komfy_db.Base.Int.{to_int}
use komfy_db.Base.State.{State, ◌>>=◌, ◌>>◌, lift}
use komfy_db.Base.Status
use komfy_db.Base.Status.{StatusOr, Status, ok, err, fault, no_fuel, guard, invalid_argument}
use komfy_db.Common.Field.{Field, FieldType, int, string, int_field, string_field, type_eq}
use komfy_db.Common.Op.{
  Op, equals, greater_than, less_than, less_than_or_eq, greater_than_or_eq, like, not_equals, flip,
}
use komfy_db.Execution.LogicalPlan.{ColumnRef, LogicalPlan, get_column_ref, get_column_type}
use komfy_db.Execution.LogicalPlan.Build.{
  Building, add_join, add_subquery_join, add_filter_col_col, add_filter_col_const,
}
use komfy_db.Parser.Syntax.{
  OperatorType, op_and, op_greater, op_greater_eq, op_less, op_less_eq, op_like, op_equals,
  op_not_equals, op_other, Expr, column_ref, literal_int, literal_string, select,
}

-- `HsqlOpToOp`
unfoldable pub hsql_op_to_op : OperatorType → StatusOr Op
hsql_op_to_op op_greater = ok greater_than
hsql_op_to_op op_greater_eq = ok greater_than_or_eq
hsql_op_to_op op_less = ok less_than
hsql_op_to_op op_less_eq = ok less_than_or_eq
hsql_op_to_op op_like = ok like
hsql_op_to_op op_equals = ok equals
hsql_op_to_op op_not_equals = ok not_equals
hsql_op_to_op op_and = err invalid_argument
hsql_op_to_op op_other = err invalid_argument

-- `isConstantExpr`
unfoldable pub is_constant_expr : Expr → Bool
is_constant_expr (column_ref table name) = true
is_constant_expr (literal_int v) = true
is_constant_expr (literal_string s) = true
is_constant_expr _ = false

abbrev pub is_select : Expr → Bool
is_select (select s) = true
is_select _ = false

-- `isLiteral()`
unfoldable pub is_literal : Expr → Bool
is_literal (literal_int v) = true
is_literal (literal_string s) = true
is_literal (Expr.other b) = b
is_literal _ = false

-- `CompareTypes`
abbrev pub same_type : FieldType → FieldType → Status
same_type lt rt = if type_eq lt rt then ok tt else err invalid_argument

-- The switch on the type of the column.
abbrev pub const_field : FieldType → Expr → StatusOr Field
const_field int (literal_int ival) = ok (int_field (to_int ival))
const_field string (literal_string name) = ok (string_field name)
const_field int rexpr = err invalid_argument
const_field string rexpr = err invalid_argument

module _ {Sub : Type 0} where
  -- What is read from a plan on the way.
  abbrev pub reading : {A : Type 0} → (LogicalPlan Sub → StatusOr A) → State (LogicalPlan Sub) A
  reading f p = (p, f p)

  abbrev pub column : (table name : Bytes) → State (LogicalPlan Sub) ColumnRef
  column table name = reading (λ p. get_column_ref p table name)

  unfoldable pub compare_types : ColumnRef → ColumnRef → LogicalPlan Sub → Status
  compare_types lref rref p =
      Status.◌>>=◌ (get_column_type p lref)
        (λ lt. Status.◌>>=◌ (get_column_type p rref) (same_type lt))

  -- The first part of `ParseSimpleExpression`, which finds `is_join`.
  unfoldable pub is_join : Expr → Expr → LogicalPlan Sub → StatusOr Bool
  is_join Expr.null rexpr p = fault
  is_join (column_ref table name) (column_ref table' name') p =
      Status.◌>>=◌ (get_column_ref p table name) (λ lref.
        Status.◌>>=◌ (get_column_ref p table' name')
          (λ rref. ok (not (bytes_eq lref.table rref.table))))
  is_join (column_ref table name) (select s) p = ok true
  is_join lexpr Expr.null p = fault
  is_join lexpr (select s) p = err invalid_argument
  is_join lexpr rexpr p = ok false

  -- `AddJoin` and `AddFilterColCol` behind `CompareTypes`.
  abbrev pub compared_join : ColumnRef → Op → ColumnRef → Building Sub
  compared_join lref op rref = reading (compare_types lref rref) >> add_join lref op rref

  abbrev pub compared_filter : ColumnRef → Op → ColumnRef → Building Sub
  compared_filter lref op rref =
      reading (compare_types lref rref) >> add_filter_col_col lref op rref

  -- A join with the column `lref`, where `subplan` is the plan that
  -- `GenerateLogicalPlan(rexpr->select)` gives. Only columns and subqueries come here.
  unfoldable pub join_with : ColumnRef → Op → Expr → StatusOr Sub → Building Sub
  join_with lref op (column_ref table name) subplan =
      column table name >>= λ rref. compared_join lref op rref
  join_with lref op rexpr subplan = lift subplan >>= λ plan. add_subquery_join lref op plan

  unfoldable pub parse_join : Expr → Op → Expr → StatusOr Sub → Building Sub
  unfolding join_with
  parse_join (column_ref table name) op rexpr subplan =
      column table name >>= λ lref. join_with lref op rexpr subplan
  parse_join lexpr op rexpr subplan = lift fault

  -- A filter with a column on the left. Only columns and literals come here.
  abbrev pub constant_filter : ColumnRef → Op → Expr → FieldType → Building Sub
  constant_filter lref op rexpr t =
      lift (const_field t rexpr) >>= λ constant. add_filter_col_const lref op constant

  unfoldable pub column_filter : ColumnRef → Op → Expr → Building Sub
  column_filter lref op (column_ref table name) =
      column table name >>= λ rref. compared_filter lref op rref
  column_filter lref op rexpr =
      reading (λ p. get_column_type p lref) >>= λ t. constant_filter lref op rexpr t

  unfoldable pub left_column : Expr → Op → Expr → Building Sub
  unfolding column_filter
  left_column (column_ref table name) op rexpr =
      column table name >>= λ lref. column_filter lref op rexpr
  left_column lexpr op rexpr = lift fault

  unfoldable pub parse_filter : Expr → Op → Expr → Building Sub
  unfolding is_literal left_column
  parse_filter lexpr op rexpr =
      if is_literal lexpr && is_literal rexpr
      then lift (err invalid_argument)
      else if is_literal lexpr
      then left_column rexpr (flip op) lexpr
      else left_column lexpr op rexpr

  -- A condition that is a join or a filter, after the check of its sides.
  abbrev pub join_or_filter : Expr → Op → Expr → StatusOr Sub → Bool → Building Sub
  join_or_filter lexpr op rexpr subplan joins =
      lift (
        guard (is_constant_expr lexpr && (is_constant_expr rexpr || is_select rexpr))
          invalid_argument)
      >> (if joins then parse_join lexpr op rexpr subplan else parse_filter lexpr op rexpr)

  -- `ParseSimpleExpression`
  unfoldable pub parse_simple_expression : Expr → Op → Expr → StatusOr Sub → Building Sub
  unfolding is_join is_constant_expr parse_join parse_filter
  parse_simple_expression lexpr op rexpr subplan =
      reading (is_join lexpr rexpr) >>= λ joins. join_or_filter lexpr op rexpr subplan joins
