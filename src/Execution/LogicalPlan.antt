-- ===== src/Execution/LogicalPlan.antt =====
-- Logical plans: komfydb/execution/logical_plan, and komfydb/common/column_ref.h. `Sub` is the type
-- of the plans of subqueries. The hash map `alias_to_id` is an association list, and what iterates over it
-- takes the order of the list.
pub mod Build
pub mod Resolved
pub mod Conditions
pub mod Reached
pub mod Lookup
pub mod Equiv
pub mod Fields
pub mod Physical
use komfy_db.Base.{
  ℕ, Bool, true, false, not, ◌&&◌, ◌||◌, List, [], ◌∷◌, ◌++◌, map, Option, none, some,
  if◌then◌else◌, Bytes, codes, bytes_eq,
}
use komfy_db.Base.Int.{ℤ, pos, negsuc}
use komfy_db.Base.Maps.{lookup, insert}
use komfy_db.Base.Status.{
  StatusOr, Status, ok, err, fault, no_fuel, or_err, invalid_argument, ◌>>=◌,
}
use komfy_db.Common.Field.{Field, FieldType}
use komfy_db.Common.Op.{Op}
use komfy_db.Common.TupleDesc.{TupleDesc, index_for_field_name, get_field_type}
use komfy_db.Storage.Catalog.{Catalog, get_tuple_desc}
use komfy_db.Execution.Aggregator.{AggregateType, get_aggregate_type, aggregate_type_to_string}
use komfy_db.Execution.OrderBy.{Order}
use komfy_db.Execution.Predicate.{Predicate, col_const, col_col}

pub record ColumnRef : Type 0 where
  pub table : Bytes
  pub column : Bytes

abbrev pub is_empty : Bytes → Bool
is_empty [] = true
is_empty (c ∷ cs) = false

-- `IsValid`, `IsStar`
abbrev pub is_valid : ColumnRef → Bool
is_valid ref = not (is_empty ref.table) && not (is_empty ref.column)

unfoldable pub is_star : ColumnRef → Bool
is_star ref = bytes_eq ref.table (codes "null") && bytes_eq ref.column (codes "*")

-- `operator std::string`
unfoldable pub column_ref_to_str : ColumnRef → Bytes
column_ref_to_str ref = ref.table ++ (b'.' ∷ ref.column)

pub record ScanNode : Type 0 where
  pub id : ℕ
  pub alias : Bytes

pub data FilterNode : Type 0 where
  two_columns : (lcol : ColumnRef) (op : Op) (rcol : ColumnRef) → FilterNode
  column_constant : (lcol : ColumnRef) (op : Op) (constant : Field) → FilterNode

pub data JoinNode (Sub : Type 0) : Type 0 where
  join_columns : (lref : ColumnRef) (op : Op) (rref : ColumnRef) → JoinNode Sub
  join_subplan : (lref : ColumnRef) (op : Op) (subplan : Sub) → JoinNode Sub

pub record AggregateNode : Type 0 where
  pub col : ColumnRef
  pub agg_type : AggregateType

-- `selects` are the columns of the select nodes; `order` is not set before an order is given.
pub record LogicalPlan (Sub : Type 0) : Type 0 where
  pub catalog : Catalog
  pub filters : List FilterNode
  pub joins : List (JoinNode Sub)
  pub selects : List ColumnRef
  pub scans : List ScanNode
  pub aggregates : List AggregateNode
  pub groupby_cols : List ColumnRef
  pub alias_to_id : List (Bytes × ℕ)
  pub order_by_column : ColumnRef
  pub order : Option Order
  pub limit : ℤ

abbrev pub no_column : ColumnRef
no_column = record { table = []; column = [] }

-- The constructor.
abbrev pub empty_plan : {Sub : Type 0} → Catalog → LogicalPlan Sub
empty_plan c = record {
  catalog = c;
  filters = [];
  joins = [];
  selects = [];
  scans = [];
  aggregates = [];
  groupby_cols = [];
  alias_to_id = [];
  order_by_column = no_column;
  order = none;
  limit = negsuc 0;
}

-- `FilterNode::GetPredicate`: the columns are looked up by name in one schema.
unfoldable pub get_predicate : TupleDesc → FilterNode → StatusOr Predicate
get_predicate td (two_columns lcol op rcol) = do
  l_field ← index_for_field_name td lcol.column
  r_field ← index_for_field_name td rcol.column
  ok (col_col (pos l_field) op (pos r_field))
get_predicate td (column_constant lcol op constant) = do
  l_field ← index_for_field_name td lcol.column
  ok (col_const (pos l_field) op constant)

-- `IsDuplicateCondition`; a join with a subquery has no right column.
abbrev pub sides : {Sub : Type 0} → JoinNode Sub → Bytes × Bytes
sides (join_columns lref op rref) = (lref.table, rref.table)
sides (join_subplan lref op subplan) = (lref.table, [])

unfoldable pub is_duplicate_condition :
    {Sub : Type 0} → ColumnRef → ColumnRef → List (JoinNode Sub) → Bool
is_duplicate_condition lref rref [] = false
is_duplicate_condition lref rref (join ∷ joins) =
    let (l, r) = sides join in
    let rest = is_duplicate_condition lref rref joins in
    if bytes_eq l lref.table && bytes_eq r rref.table
    then true
    else if bytes_eq l rref.table && bytes_eq r lref.table
    then true
    else rest

-- `CheckColumnRef`, on the catalog and the aliases of a plan
abbrev pub check_in : Catalog → Bytes → Option ℕ → Status
check_in c column none = err invalid_argument
check_in c column (some id) = do
  tuple_desc ← get_tuple_desc c id
  _ ← index_for_field_name tuple_desc column
  ok tt

unfoldable pub check_ref : Catalog → List (Bytes × ℕ) → ColumnRef → Status
unfolding is_star
check_ref c alias_to_id ref =
    let checked = check_in c ref.column (lookup bytes_eq ref.table alias_to_id) in
    if is_star ref then ok tt else checked

abbrev pub check_column_ref : {Sub : Type 0} → LogicalPlan Sub → ColumnRef → Status
check_column_ref p ref = check_ref p.catalog p.alias_to_id ref

-- The loop of `GetColumnRef`, with the alias found so far, or the empty string.
abbrev pub found_in : StatusOr ℕ → Bytes → Bytes → StatusOr Bytes
found_in (ok idx) table alias = if is_empty table then ok alias else err invalid_argument
found_in (err c) table alias = ok table
found_in fault table alias = fault
found_in no_fuel table alias = no_fuel

unfoldable pub find_table : Catalog → Bytes → List (Bytes × ℕ) → Bytes → StatusOr Bytes
find_table c column [] table = ok table
find_table c column ((alias, id) ∷ rest) table = do
  tuple_desc ← get_tuple_desc c id
  table' ← found_in (index_for_field_name tuple_desc column) table alias
  find_table c column rest table'

-- `GetColumnRef`
unfoldable pub get_column_ref :
    {Sub : Type 0} → LogicalPlan Sub → (table column : Bytes) → StatusOr ColumnRef
unfolding find_table
get_column_ref p table column =
    if not (is_empty table) then ok (record { table = table; column = column }) else do
      table' ← find_table p.catalog column p.alias_to_id []
      (if is_empty table'
          then err invalid_argument
          else ok (record { table = table'; column = column }))

-- `GetColumnType`
unfoldable pub get_column_type : {Sub : Type 0} → LogicalPlan Sub → ColumnRef → StatusOr FieldType
get_column_type p ref = do
  id ← or_err (lookup bytes_eq ref.table p.alias_to_id) invalid_argument
  tuple_desc ← get_tuple_desc p.catalog id
  column_idx ← index_for_field_name tuple_desc ref.column
  get_field_type tuple_desc (pos column_idx)
