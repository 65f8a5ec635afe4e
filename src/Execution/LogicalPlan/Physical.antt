-- ===== src/Execution/LogicalPlan/Physical.antt =====
-- Physical plans and how their operators are made: komfydb/execution/logical_plan/logical_plan.cc,
-- komfydb/optimizer/join_optimizer.cc and the `Create` functions of komfydb/execution. A plan is the
-- tree of the iterators before they are opened.
pub mod Generate
pub mod WellFormed
pub mod Outputs
pub mod Planned
pub mod Aligned
pub mod Returning
pub mod Finishing
pub mod Ending
pub mod Scans
pub mod Placed
pub mod Started
pub mod Complete
use komfy_db.Base.{ℕ, List, [], ◌∷◌, ◌++◌, map, length, replicate, Option, if◌then◌else◌, Bytes}
use komfy_db.Base.Int.{ℤ, pos, negsuc}
use komfy_db.Base.Status.{StatusOr, ok, err, ◌>>=◌, ◌>>◌, or_fault, guard, failed_precondition}
use komfy_db.Common.Field.{FieldType, type_eq}
use komfy_db.Common.Op.{Op}
use komfy_db.Common.TupleDesc
use komfy_db.Common.TupleDesc.{TdItem, TupleDesc, get_field_type, td_length}
use komfy_db.Storage.Catalog.{Catalog, get_table_name, get_tuple_desc}
use komfy_db.Execution.Aggregate.{columns}
use komfy_db.Execution.Aggregator.{AggregateType}
use komfy_db.Execution.Filter
use komfy_db.Execution.OrderBy
use komfy_db.Execution.OrderBy.{Order}
use komfy_db.Execution.Predicate.{Predicate, JoinPredicate}
use komfy_db.Execution.Project.{create_items}
use komfy_db.Execution.LogicalPlan.{
  ColumnRef, FilterNode, ScanNode, AggregateNode, is_valid, get_predicate,
}
use komfy_db.Execution.LogicalPlan.Fields.{
  get_index_for_column_ref, aggregate_fields, groupby_fields, select_fields,
}

-- The iterators that a logical plan is made into, with the arguments that their constructors keep.
pub data Plan : Type 0 where
  seq_scan : (table_id : ℕ) (table_name alias : Bytes) (td : TupleDesc) → Plan
  filter : (child : Plan) (predicate : Predicate) → Plan
  join : (l_child : Plan) (join_predicate : JoinPredicate) (r_child : Plan) → Plan
  order_by : (child : Plan) (order_by_field : ℕ) (order : Order) → Plan
  project : (child : Plan) (idxs : List ℤ) (items : List TdItem) (aliases : List Bytes) → Plan
  aggregate :
      (child : Plan) (types : List AggregateType) (fields groupby : List ℤ)
      (cols : List (FieldType × Bytes × Bytes))
      → Plan
  limit : (child : Plan) (n : ℕ) → Plan

-- a column that `Aggregate::Create` collected, as an item of the schema
abbrev pub column_item : FieldType × Bytes × Bytes → TdItem
column_item (t, name, alias) = record { field_type = t; field_name = name }

abbrev pub column_alias : FieldType × Bytes × Bytes → Bytes
column_alias (t, name, alias) = alias

-- `GetTupleDesc`
unfoldable pub tuple_desc : Plan → TupleDesc
tuple_desc (seq_scan table_id table_name alias td) = td
tuple_desc (filter child predicate) = tuple_desc child
tuple_desc (join l_child p r_child) = TupleDesc.join (tuple_desc l_child) (tuple_desc r_child)
tuple_desc (order_by child field order) = tuple_desc child
tuple_desc (project child idxs items aliases) = record { items = items }
tuple_desc (aggregate child types fields groupby cols) = record { items = map column_item cols }
tuple_desc (limit child n) = tuple_desc child

-- `GetFieldsTableAliases`
unfoldable pub aliases_of : Plan → List Bytes
aliases_of (seq_scan table_id table_name alias td) = replicate (td_length td) alias
aliases_of (filter child predicate) = aliases_of child
aliases_of (join l_child p r_child) = aliases_of l_child ++ aliases_of r_child
aliases_of (order_by child field order) = aliases_of child
aliases_of (project child idxs items aliases) = aliases
aliases_of (aggregate child types fields groupby cols) = map column_alias cols
aliases_of (limit child n) = aliases_of child

-- `OpIterator::GetIndexForColumnRef`
abbrev pub index_of : Plan → ColumnRef → StatusOr ℕ
index_of plan ref = get_index_for_column_ref (tuple_desc plan) (aliases_of plan) ref

-- `TableIterator::Create` and `SeqScan::Create`, as `ProcessScanNodes` calls them.
unfoldable pub create_scan : Catalog → ScanNode → StatusOr Plan
create_scan c scan = do
  table_name ← get_table_name c scan.id
  td ← get_tuple_desc c scan.id
  ok (seq_scan scan.id table_name scan.alias td)

-- The body of the loop of `ProcessFilterNodes`, on the plan of the filter's table.
unfoldable pub create_filter : FilterNode → Plan → StatusOr Plan
create_filter node subplan = do
  predicate ← get_predicate (tuple_desc subplan) node
  _ ← Filter.create (tuple_desc subplan) predicate
  ok (filter subplan predicate)

-- `InstatiateJoin` from the types of the fields on
unfoldable pub create_join : Plan → ℕ → Op → Plan → ℕ → StatusOr Plan
create_join l_child l_field op r_child r_field = do
  l_type ← get_field_type (tuple_desc l_child) (pos l_field)
  r_type ← get_field_type (tuple_desc r_child) (pos r_field)
  guard (type_eq l_type r_type) failed_precondition
  ok (
      join l_child (record { l_field_idx = pos l_field; op = op; r_field_idx = pos r_field })
        r_child)

-- `InstatiateJoin` of two columns, and of a column and the first column of a subquery. A plan that was
-- moved out is null, and dereferenced.
unfoldable pub join_two : ColumnRef → Op → ColumnRef → Option Plan → Option Plan → StatusOr Plan
unfolding create_join
join_two lref op rref l r = do
  l_child ← or_fault l
  l_field ← index_of l_child lref
  r_child ← or_fault r
  r_field ← index_of r_child rref
  create_join l_child l_field op r_child r_field

unfoldable pub join_first : ColumnRef → Op → Option Plan → Plan → StatusOr Plan
unfolding create_join
join_first lref op l r_child = do
  l_child ← or_fault l
  l_field ← index_of l_child lref
  create_join l_child l_field op r_child 0

-- `Aggregate::Create`
abbrev pub create_aggregate : List (AggregateType × ℕ) → List ℕ → Plan → StatusOr Plan
create_aggregate fields groupby plan = do
  cols ←
      columns (tuple_desc plan) (aliases_of plan) (map (λ f. f.0) fields)
        (map (λ f. pos f.1) fields)
  ok (aggregate plan (map (λ f. f.0) fields) (map (λ f. pos f.1) fields) (map pos groupby) cols)

-- `ProcessAggregateNodes`
unfoldable pub process_aggregate_nodes : List AggregateNode → List ColumnRef → Plan → StatusOr Plan
process_aggregate_nodes aggregates groupby_cols plan = do
  fields ← aggregate_fields (tuple_desc plan) (aliases_of plan) aggregates
  groupby ← groupby_fields (tuple_desc plan) (aliases_of plan) groupby_cols
  create_aggregate fields groupby plan

-- `ProcessSelectNodes`
unfoldable pub process_select_nodes : List ColumnRef → Plan → StatusOr Plan
process_select_nodes selects plan = do
  result_fields ← select_fields (tuple_desc plan) (aliases_of plan) selects
  (items, aliases) ← create_items (tuple_desc plan) (aliases_of plan) (map pos result_fields)
  ok (project plan (map pos result_fields) items aliases)

-- `ProcessOrderBy`; an order that is not set would be read before it is written.
abbrev pub ordered : ColumnRef → Option Order → Plan → StatusOr Plan
ordered column order plan = do
  field ← index_of plan column
  o ← or_fault order
  _ ← OrderBy.create (tuple_desc plan) (pos field)
  ok (order_by plan field o)

unfoldable pub process_order_by : ColumnRef → Option Order → Plan → StatusOr Plan
process_order_by column order plan =
    let rest = ordered column order plan in if is_valid column then rest else ok plan

-- `ProcessLimit`, for a limit that is not negative
unfoldable pub process_limit : ℤ → Plan → StatusOr Plan
process_limit (pos n) plan = ok (limit plan n)
process_limit (negsuc n) plan = ok plan
