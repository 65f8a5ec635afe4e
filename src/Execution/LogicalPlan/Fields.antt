-- ===== src/Execution/LogicalPlan/Fields.antt =====
-- The fields that the columns of a plan stand for in the schema of an operator, and in the arguments of
-- the operators that aggregate and project: komfydb/execution/op_iterator.cc and
-- komfydb/execution/logical_plan/logical_plan.cc. `aliases` are the table aliases of the fields.
pub mod Aggregated
use komfy_db.Base.{
  ℕ, zero, suc, Bool, true, false, ◌&&◌, List, [], ◌∷◌, ◌++◌, map, length, if◌then◌else◌, Bytes,
  bytes_eq,
}
use komfy_db.Base.Int.{pos}
use komfy_db.Base.Status.{StatusOr, ok, err, fault, ◌>>=◌, invalid_argument, failed_precondition}
use komfy_db.Common.TupleDesc.{TdItem, TupleDesc, get_field_type}
use komfy_db.Common.Field.{FieldType}
use komfy_db.Execution.Aggregator.{AggregateType, is_applicable}
use komfy_db.Execution.LogicalPlan.{ColumnRef, AggregateNode, is_star}

-- The loop of `GetIndexForColumnRef`, from index `i`.
unfoldable pub column_from : ℕ → ColumnRef → List TdItem → List Bytes → StatusOr ℕ
column_from i col [] aliases = err invalid_argument
column_from i col (item ∷ items) [] = fault
column_from i col (item ∷ items) (alias ∷ aliases) =
    let rest = column_from (suc i) col items aliases in
    if bytes_eq col.table alias && bytes_eq item.field_name col.column then ok i else rest

abbrev pub get_index_for_column_ref : TupleDesc → List Bytes → ColumnRef → StatusOr ℕ
get_index_for_column_ref td aliases col = column_from 0 col td.items aliases

-- `n` indices from `i` on
abbrev pub indices : ℕ → ℕ → List ℕ
indices i zero = []
indices i (suc n) = i ∷ indices (suc i) n

abbrev pub is_none : AggregateType → Bool
is_none AggregateType.none = true
is_none AggregateType.max = false
is_none AggregateType.min = false
is_none AggregateType.sum = false
is_none AggregateType.avg = false
is_none AggregateType.count = false

-- The first loop of `ProcessAggregateNodes`: each type with its field.
abbrev pub applied : AggregateType → ℕ → FieldType → StatusOr (List (AggregateType × ℕ))
applied type field field_type =
    if is_applicable type field_type then ok ((type, field) ∷ []) else err failed_precondition

unfoldable pub aggregate_field :
    TupleDesc → List Bytes → AggregateNode → StatusOr (List (AggregateType × ℕ))
aggregate_field td aliases aggregate =
    if is_none aggregate.agg_type && is_star aggregate.col
    then ok (map (λ i. (AggregateType.none, i)) (indices 0 (length td.items)))
    else do
      field ← get_index_for_column_ref td aliases aggregate.col
      field_type ← get_field_type td (pos field)
      applied aggregate.agg_type field field_type

unfoldable pub aggregate_fields :
    TupleDesc → List Bytes → List AggregateNode → StatusOr (List (AggregateType × ℕ))
aggregate_fields td aliases [] = ok []
aggregate_fields td aliases (aggregate ∷ aggregates) = do
  fields ← aggregate_field td aliases aggregate
  rest ← aggregate_fields td aliases aggregates
  ok (fields ++ rest)

-- The second loop.
unfoldable pub groupby_fields : TupleDesc → List Bytes → List ColumnRef → StatusOr (List ℕ)
groupby_fields td aliases [] = ok []
groupby_fields td aliases (col_ref ∷ cols) = do
  field ← get_index_for_column_ref td aliases col_ref
  rest ← groupby_fields td aliases cols
  ok (field ∷ rest)

-- The loop of `ProcessSelectNodes`.
abbrev pub select_field : TupleDesc → List Bytes → ColumnRef → StatusOr (List ℕ)
select_field td aliases ref =
    if is_star ref
    then ok (indices 0 (length td.items))
    else do idx ← get_index_for_column_ref td aliases ref; ok (idx ∷ [])

unfoldable pub select_fields : TupleDesc → List Bytes → List ColumnRef → StatusOr (List ℕ)
select_fields td aliases [] = ok []
select_fields td aliases (ref ∷ selects) = do
  fields ← select_field td aliases ref
  rest ← select_fields td aliases selects
  ok (fields ++ rest)
