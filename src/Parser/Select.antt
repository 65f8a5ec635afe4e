-- ===== src/Parser/Select.antt =====
-- From the tree of a SELECT to a logical plan: komfydb/parser.cc. `Sub` is the type of the pointers to
-- plans of subqueries, and `pack` moves a plan behind one.
use komfy_db.Base.{ℕ, List, [], ◌∷◌, if◌then◌else◌, Bytes, codes}
use komfy_db.Base.State.{State, ◌>>=◌, ◌>>◌, return, lift}
use komfy_db.Base.Status
use komfy_db.Base.Status.{StatusOr, Status, ok, err, fault, no_fuel, guard, invalid_argument}
use komfy_db.Execution.LogicalPlan.{ColumnRef, LogicalPlan, empty_plan}
use komfy_db.Execution.LogicalPlan.Build.{
  Building, add_scan, add_group_by, add_aggregate, add_select, add_order_by, add_limit,
}
use komfy_db.Execution.OrderBy.{Order}
use komfy_db.Parser.Syntax.{
  op_and, TableRef, TableRefs, OrderType, order_asc, order_desc, Expr, Exprs, column_ref,
  literal_int, star, function_ref, operator, select, group_by, GroupByDescription, no_group_by,
  OrderDescriptions, no_order_by, order_nil, order_cons, LimitDescription, no_limit, limit,
  SelectStatement, select_statement,
}
use komfy_db.Storage.Catalog.{Catalog, get_table_id}
use komfy_db.Parser.Condition.{hsql_op_to_op, column, parse_simple_expression}

abbrev pub column_ref_star : ColumnRef
column_ref_star = record { table = codes "null"; column = codes "*" }

-- The names and aliases of a FROM clause, `names` and `aliases` together.
unfoldable pub listed_tables : TableRefs → StatusOr (List (Bytes × Bytes))
listed_tables TableRefs.nil = ok []
listed_tables (TableRefs.cons (TableRef.table_name name get_name) rest) =
    Status.◌>>=◌ (listed_tables rest) (λ names. ok ((name, get_name) ∷ names))
listed_tables (TableRefs.cons TableRef.null rest) = fault
listed_tables (TableRefs.cons (TableRef.cross_product list) rest) = err invalid_argument
listed_tables (TableRefs.cons TableRef.other rest) = err invalid_argument

unfoldable pub from_names : TableRef → StatusOr (List (Bytes × Bytes))
unfolding listed_tables
from_names TableRef.null = fault
from_names (TableRef.table_name name get_name) = ok ((name, get_name) ∷ [])
from_names (TableRef.cross_product list) = listed_tables list
from_names TableRef.other = err invalid_argument

-- The ids of the names, each with its alias.
unfoldable pub table_ids : Catalog → List (Bytes × Bytes) → StatusOr (List (ℕ × Bytes))
table_ids c [] = ok []
table_ids c ((name, alias) ∷ rest) =
    Status.◌>>=◌ (get_table_id c name)
      (λ id. Status.◌>>=◌ (table_ids c rest) (λ ids. ok ((id, alias) ∷ ids)))

-- The direction of ORDER BY.
abbrev pub direction : OrderType → Order
direction order_asc = Order.ascending
direction order_desc = Order.descending

module _ {Sub : Type 0} where
  unfoldable pub add_scans : List (ℕ × Bytes) → Building Sub
  add_scans [] = return tt
  add_scans ((id, alias) ∷ rest) = add_scan id alias >> add_scans rest

  -- `ParseFromClause`
  unfoldable pub parse_from_clause : Catalog → TableRef → Building Sub
  unfolding from_names table_ids
  parse_from_clause c from = lift (Status.◌>>=◌ (from_names from) (table_ids c)) >>= add_scans

  -- `ParseGroupBy`
  unfoldable pub group_columns : Exprs → Building Sub
  group_columns Exprs.nil = return tt
  group_columns (Exprs.cons (column_ref table name) rest) =
      (column table name >>= λ ref. add_group_by ref) >> group_columns rest
  group_columns (Exprs.cons Expr.null rest) = lift fault
  group_columns (Exprs.cons expr rest) = lift (err invalid_argument)

  unfoldable pub parse_group_by : GroupByDescription → Building Sub
  unfolding group_columns
  parse_group_by no_group_by = return tt
  parse_group_by (group_by having columns) =
      if having then lift (err invalid_argument) else group_columns columns

  -- `ParseColumnSelection`: the argument of a function, and one round of the loop.
  abbrev pub argument : Exprs → State (LogicalPlan Sub) ColumnRef
  argument (Exprs.cons (column_ref table name) Exprs.nil) = column table name
  argument (Exprs.cons star Exprs.nil) = return column_ref_star
  argument (Exprs.cons Expr.null Exprs.nil) = lift fault
  argument expr_list = lift (err invalid_argument)

  unfoldable pub select_column : Expr → Building Sub
  select_column (function_ref name expr_list) = argument expr_list >>= λ ref. add_aggregate name ref
  select_column (column_ref table name) = column table name >>= λ ref. add_select ref
  select_column star = add_select column_ref_star
  select_column Expr.null = lift fault
  select_column expr = lift (err invalid_argument)

  unfoldable pub parse_column_selection : Exprs → Building Sub
  unfolding select_column
  parse_column_selection Exprs.nil = return tt
  parse_column_selection (Exprs.cons it rest) = select_column it >> parse_column_selection rest

  -- `ParseOrderBy`
  unfoldable pub parse_order_by : OrderDescriptions → Building Sub
  parse_order_by no_order_by = return tt
  parse_order_by (order_cons type (column_ref table name) order_nil) =
      column table name >>= λ ref. add_order_by ref (direction type)
  parse_order_by (order_cons type Expr.null order_nil) = lift fault
  parse_order_by descr = lift (err invalid_argument)

  -- `ParseLimit`
  unfoldable pub parse_limit : LimitDescription → Building Sub
  parse_limit no_limit = return tt
  parse_limit (limit (literal_int ival)) = add_limit ival
  parse_limit (limit Expr.null) = lift fault
  parse_limit (limit expr) = lift (err invalid_argument)

  -- The plan that a method has built, if it returns ok.
  abbrev pub built : LogicalPlan Sub × StatusOr (Unit {0}) → StatusOr (LogicalPlan Sub)
  built (p, r) = Status.◌>>=◌ r (λ _. ok p)

-- `ParseWhereExpression` and `GenerateLogicalPlan`.
module _ {Sub : Type 0} (pack : LogicalPlan Sub → Sub) (c : Catalog) where
  unfoldable mutual
    pub parse_where_expression : Expr → Building Sub
    parse_where_expression Expr.null = return tt
    parse_where_expression (operator op_and expr expr2) =
        parse_where_expression expr >> parse_where_expression expr2
    parse_where_expression (operator op_type expr expr2) = lift (hsql_op_to_op op_type) >>= λ op.
        parse_simple_expression expr op expr2 (subplan_of expr2)
    parse_where_expression expr = lift (err invalid_argument)

    -- The plan of `rexpr->select`, behind a pointer.
    pub subplan_of : Expr → StatusOr Sub
    subplan_of (select stmt) = Status.◌>>=◌ (generate_logical_plan stmt) (λ plan. ok (pack plan))
    subplan_of expr = fault

    pub generate_logical_plan : SelectStatement → StatusOr (LogicalPlan Sub)
    generate_logical_plan
          (select_statement from_table where_clause grouped select_list order limit_descr) =
        built (
          (parse_from_clause c from_table
              >> parse_where_expression where_clause
              >> parse_group_by grouped
              >> parse_column_selection select_list
              >> parse_order_by order
              >> parse_limit limit_descr)
            (empty_plan c))
