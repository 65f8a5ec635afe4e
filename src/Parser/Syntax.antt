-- ===== src/Parser/Syntax.antt =====
-- What komfydb/parser.cc reads of the trees of the SQL parser hsql, a library outside of the repository.
-- The types stand for pointers: `null` is a null pointer where the code can meet one. A null `char*` is
-- the empty text, as `GetColumnRef(char*, char*)` of komfydb/execution/logical_plan/logical_plan.cc
-- reads it, and a list that is null is empty where the code takes both alike.
use komfy_db.Base.{Bool, Bytes}
use komfy_db.Base.Int.{ℤ}

-- `hsql::OperatorType`: the operators that the code names, and the rest.
pub data OperatorType : Type 0 where
  op_and op_greater op_greater_eq op_less op_less_eq op_like op_equals op_not_equals : OperatorType
  op_other : OperatorType

-- `hsql::TableRef`: `get_name` is what `getName()` returns; `other` is a join or a subquery.
mutual
  pub data TableRef : Type 0 where
    null : TableRef
    table_name : (name get_name : Bytes) → TableRef
    cross_product : TableRefs → TableRef
    other : TableRef

  pub data TableRefs : Type 0 where
    nil : TableRefs
    cons : TableRef → TableRefs → TableRefs

pub data OrderType : Type 0 where
  order_asc order_desc : OrderType

-- `hsql::Expr`: `other` is any type of expression that the code does not name, with what `isLiteral()`
-- returns for it. In a `group_by`, `having` is whether there is such an expression; `no_group_by`,
-- `no_order_by` and `no_limit` are null pointers.
mutual
  pub data Expr : Type 0 where
    null : Expr
    column_ref : (table name : Bytes) → Expr
    literal_int : (ival : ℤ) → Expr
    literal_string : (name : Bytes) → Expr
    star : Expr
    function_ref : (name : Bytes) (expr_list : Exprs) → Expr
    operator : OperatorType → (expr expr2 : Expr) → Expr
    select : SelectStatement → Expr
    other : (is_literal : Bool) → Expr

  pub data Exprs : Type 0 where
    nil : Exprs
    cons : Expr → Exprs → Exprs

  pub data GroupByDescription : Type 0 where
    no_group_by : GroupByDescription
    group_by : (having : Bool) (columns : Exprs) → GroupByDescription

  pub data OrderDescriptions : Type 0 where
    no_order_by : OrderDescriptions
    order_nil : OrderDescriptions
    order_cons : OrderType → Expr → OrderDescriptions → OrderDescriptions

  pub data LimitDescription : Type 0 where
    no_limit : LimitDescription
    limit : Expr → LimitDescription

  pub data SelectStatement : Type 0 where
    select_statement :
        (from_table : TableRef) (where_clause : Expr) (grouped : GroupByDescription)
        (select_list : Exprs) (order : OrderDescriptions) (limit_descr : LimitDescription)
        → SelectStatement
