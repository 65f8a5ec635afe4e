-- ===== src/Parser/Kept.antt =====
-- A plan that the parser gives is made by calls that are checked for types: komfydb/parser.cc.
use mathlib.Core.Path.{subst}
use komfy_db.Base.{◌≡◌, List, [], ◌∷◌, ℕ, true, false, Bytes}
use komfy_db.Base.State.{◌>>=◌, ◌>>◌, lift}
use komfy_db.Base.Status
use komfy_db.Base.Status.{StatusOr, ok, err, fault, no_fuel, invalid_argument, ok-injective}
use komfy_db.Execution.LogicalPlan.{LogicalPlan, empty_plan}
use komfy_db.Execution.LogicalPlan.Build.{
  Building, Call, run, scan, aggregate, order_by, limit_to, add_scan, add_group_by, add_aggregate,
  add_select, add_order_by, add_limit,
}
use komfy_db.Execution.LogicalPlan.Build
use komfy_db.Parser.Condition.{column, parse_simple_expression, hsql_op_to_op}
use komfy_db.Parser.Built.{
  Built, Keeps, then-Keeps, read-Keeps, column-Keeps, call-Keeps, parse_simple_expression-Keeps,
}
use komfy_db.Parser.Select.{
  column_ref_star, from_names, table_ids, add_scans, parse_from_clause, group_columns,
  parse_group_by, argument, select_column, parse_column_selection, direction, parse_order_by,
  parse_limit, built, parse_where_expression, subplan_of, generate_logical_plan,
}
use komfy_db.Parser.Syntax.{
  OperatorType, op_and, TableRef, Expr, Exprs, column_ref, literal_int, star, function_ref,
  operator, group_by, GroupByDescription, no_group_by, OrderDescriptions, no_order_by, order_nil,
  order_cons, LimitDescription, no_limit, limit, SelectStatement, select_statement,
}
use komfy_db.Storage.Catalog.{Catalog}

module _ {Sub : Type 0} (c : Catalog) where
  add_scans-Keeps : (ids : List (ℕ × Bytes)) → Keeps {Sub = Sub} c (add_scans ids)
  unfolding add_scans
  add_scans-Keeps [] = λ p b. b
  add_scans-Keeps ((id, alias) ∷ rest) =
      then-Keeps c (add_scan id alias) (λ u. add_scans rest)
        (call-Keeps c (scan id alias) (λ p. tt)) (λ u. add_scans-Keeps rest)

  parse_from_clause-Keeps : (from : TableRef) → Keeps {Sub = Sub} c (parse_from_clause c from)
  unfolding parse_from_clause
  parse_from_clause-Keeps from =
      read-Keeps c (λ p. Status.◌>>=◌ (from_names from) (table_ids c)) add_scans add_scans-Keeps

  group_columns-Keeps : (columns : Exprs) → Keeps {Sub = Sub} c (group_columns columns)
  unfolding group_columns
  group_columns-Keeps Exprs.nil = λ p b. b
  group_columns-Keeps (Exprs.cons (column_ref table name) rest) =
      then-Keeps c (column table name >>= λ ref. add_group_by ref) (λ u. group_columns rest)
        (column-Keeps c table name add_group_by
          (λ ref. call-Keeps c (Build.group_by ref) (λ p. tt)))
        (λ u. group_columns-Keeps rest)
  group_columns-Keeps (Exprs.cons Expr.null rest) = λ p b. b
  group_columns-Keeps (Exprs.cons expr rest) = λ p b. b

  parse_group_by-Keeps : (descr : GroupByDescription) → Keeps {Sub = Sub} c (parse_group_by descr)
  unfolding parse_group_by
  parse_group_by-Keeps no_group_by = λ p b. b
  parse_group_by-Keeps (group_by true columns) = λ p b. b
  parse_group_by-Keeps (group_by false columns) = group_columns-Keeps columns

  argument-Keeps :
      (name : Bytes) (expr_list : Exprs)
      → Keeps {Sub = Sub} c (argument expr_list >>= λ ref. add_aggregate name ref)
  argument-Keeps name (Exprs.cons (column_ref table column_name) Exprs.nil) =
      column-Keeps c table column_name (add_aggregate name)
        (λ ref. call-Keeps c (aggregate name ref) (λ p. tt))
  argument-Keeps name (Exprs.cons star Exprs.nil) =
      call-Keeps c (aggregate name column_ref_star) (λ p. tt)
  argument-Keeps name (Exprs.cons Expr.null Exprs.nil) = λ p b. b
  argument-Keeps name expr_list = λ p b. b

  select_column-Keeps : (it : Expr) → Keeps {Sub = Sub} c (select_column it)
  unfolding select_column
  select_column-Keeps (function_ref name expr_list) = argument-Keeps name expr_list
  select_column-Keeps (column_ref table name) =
      column-Keeps c table name add_select (λ ref. call-Keeps c (Build.select ref) (λ p. tt))
  select_column-Keeps star = call-Keeps c (Build.select column_ref_star) (λ p. tt)
  select_column-Keeps Expr.null = λ p b. b
  select_column-Keeps expr = λ p b. b

  parse_column_selection-Keeps :
      (columns : Exprs) → Keeps {Sub = Sub} c (parse_column_selection columns)
  unfolding parse_column_selection
  parse_column_selection-Keeps Exprs.nil = λ p b. b
  parse_column_selection-Keeps (Exprs.cons it rest) =
      then-Keeps c (select_column it) (λ u. parse_column_selection rest) (select_column-Keeps it)
        (λ u. parse_column_selection-Keeps rest)

  parse_order_by-Keeps : (descr : OrderDescriptions) → Keeps {Sub = Sub} c (parse_order_by descr)
  unfolding parse_order_by
  parse_order_by-Keeps no_order_by = λ p b. b
  parse_order_by-Keeps (order_cons type (column_ref table name) order_nil) =
      column-Keeps c table name (λ ref. add_order_by ref (direction type))
        (λ ref. call-Keeps c (order_by ref (direction type)) (λ p. tt))
  parse_order_by-Keeps (order_cons type Expr.null order_nil) = λ p b. b
  parse_order_by-Keeps descr = λ p b. b

  parse_limit-Keeps : (descr : LimitDescription) → Keeps {Sub = Sub} c (parse_limit descr)
  unfolding parse_limit
  parse_limit-Keeps no_limit = λ p b. b
  parse_limit-Keeps (limit (literal_int ival)) = call-Keeps c (limit_to ival) (λ p. tt)
  parse_limit-Keeps (limit Expr.null) = λ p b. b
  parse_limit-Keeps (limit expr) = λ p b. b

built-ok :
    {Sub : Type 0} (s : LogicalPlan Sub × StatusOr (Unit {0})) {plan : LogicalPlan Sub}
    → built s ≡ ok plan
    → s.0 ≡ plan
built-ok (p, ok u) h = ok-injective h
built-ok (p, err e) h = cc
built-ok (p, fault) h = cc
built-ok (p, no_fuel) h = cc

module _ {Sub : Type 0} (pack : LogicalPlan Sub → Sub) (c : Catalog) where
  comparison-Keeps :
      (op_type : OperatorType) (expr expr2 : Expr)
      → Keeps c (
          lift (hsql_op_to_op op_type) >>= λ op.
          parse_simple_expression expr op expr2 (subplan_of pack c expr2))
  comparison-Keeps op_type expr expr2 =
      read-Keeps c (λ p. hsql_op_to_op op_type)
        (λ op. parse_simple_expression expr op expr2 (subplan_of pack c expr2))
        (λ op. parse_simple_expression-Keeps c expr op expr2 (subplan_of pack c expr2))

  parse_where_expression-Keeps : (expr : Expr) → Keeps c (parse_where_expression pack c expr)
  unfolding parse_where_expression
  parse_where_expression-Keeps Expr.null = λ p b. b
  parse_where_expression-Keeps (operator op_and expr expr2) =
      then-Keeps c (parse_where_expression pack c expr) (λ u. parse_where_expression pack c expr2)
        (parse_where_expression-Keeps expr) (λ u. parse_where_expression-Keeps expr2)
  parse_where_expression-Keeps (operator op_type expr expr2) = comparison-Keeps op_type expr expr2
  parse_where_expression-Keeps expr = λ p b. b

  -- The plan of a SELECT is made by allowed calls.
  pub generate_logical_plan-Built :
      (stmt : SelectStatement) {plan : LogicalPlan Sub}
      → generate_logical_plan pack c stmt ≡ ok plan
      → Built Sub c plan
  unfolding generate_logical_plan
  generate_logical_plan-Built
        (select_statement from_table where_clause grouped select_list order limit_descr) h =
      let from = parse_from_clause c from_table in
      let conditions = parse_where_expression pack c where_clause in
      let groups = parse_group_by grouped in
      let columns = parse_column_selection select_list in
      let ordered = parse_order_by order in
      let limited = parse_limit limit_descr in
      subst (Built Sub c)
        (built-ok ((from >> conditions >> groups >> columns >> ordered >> limited) (empty_plan c))
          h)
        (then-Keeps c (from >> conditions >> groups >> columns >> ordered) (λ u. limited)
          (then-Keeps c (from >> conditions >> groups >> columns) (λ u. ordered)
            (then-Keeps c (from >> conditions >> groups) (λ u. columns)
              (then-Keeps c (from >> conditions) (λ u. groups)
                (then-Keeps c from (λ u. conditions) (parse_from_clause-Keeps c from_table)
                  (λ u. parse_where_expression-Keeps where_clause))
                (λ u. parse_group_by-Keeps c grouped))
              (λ u. parse_column_selection-Keeps c select_list))
            (λ u. parse_order_by-Keeps c order))
          (λ u. parse_limit-Keeps c limit_descr) (empty_plan c) Built.empty)
