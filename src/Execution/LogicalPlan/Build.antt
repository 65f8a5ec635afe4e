-- ===== src/Execution/LogicalPlan/Build.antt =====
-- The calls that build a logical plan: komfydb/execution/logical_plan/logical_plan.cc.
use komfy_db.Base.{ℕ, List, [], ◌∷◌, ◌++◌, map, Option, none, some, if◌then◌else◌, Bytes, bytes_eq}
use komfy_db.Base.Int.{ℤ}
use komfy_db.Base.Maps.{lookup, insert}
use komfy_db.Base.State.{State}
use komfy_db.Base.Status.{StatusOr, ok, err, fault, no_fuel, invalid_argument, unimplemented, ◌>>◌}
use komfy_db.Common.Field.{Field}
use komfy_db.Common.Op.{Op}
use komfy_db.Execution.Aggregator.{
  AggregateType, none, get_aggregate_type, aggregate_type_to_string,
}
use komfy_db.Execution.OrderBy.{Order}
use komfy_db.Storage.Catalog.{Catalog}
use komfy_db.Execution.LogicalPlan.{
  ColumnRef, LogicalPlan, AggregateNode, join_columns, join_subplan, two_columns, column_constant,
  is_valid, empty_plan, is_duplicate_condition, check_column_ref,
}

abbrev pub Building : Type 0 → Type 0
Building Sub = State (LogicalPlan Sub) (Unit {0})

module _ {Sub : Type 0} where
  -- What is done where the checks before it pass.
  abbrev pub passed :
      StatusOr (Unit {0})
      → LogicalPlan Sub
      → LogicalPlan Sub × StatusOr (Unit {0})
      → LogicalPlan Sub × StatusOr (Unit {0})
  passed (ok _) p done = done
  passed (err c) p done = (p, err c)
  passed fault p done = (p, fault)
  passed no_fuel p done = (p, no_fuel)

  abbrev pub scan_found :
      ℕ → Bytes → LogicalPlan Sub → Option ℕ → LogicalPlan Sub × StatusOr (Unit {0})
  scan_found table_id alias p (some id) = (p, err invalid_argument)
  scan_found table_id alias p Option.none = (
    record p {
      scans = p.scans ++ record { id = table_id; alias = alias } ∷ [];
      alias_to_id = insert bytes_eq alias table_id p.alias_to_id;
    },
    ok tt,
  )

  -- `AddScan`
  unfoldable pub add_scan : ℕ → Bytes → Building Sub
  add_scan table_id alias p = scan_found table_id alias p (lookup bytes_eq alias p.alias_to_id)

  -- `AddJoin`
  unfoldable pub add_join : ColumnRef → Op → ColumnRef → Building Sub
  add_join lref op rref p =
      passed
        (check_column_ref p lref
          >> (check_column_ref p rref
              >> (if is_duplicate_condition lref rref p.joins then err unimplemented else ok tt)))
        p (record p { joins = p.joins ++ join_columns lref op rref ∷ [] }, ok tt)

  -- `AddSubqueryJoin`
  unfoldable pub add_subquery_join : ColumnRef → Op → Sub → Building Sub
  add_subquery_join ref op subplan p =
      passed (check_column_ref p ref) p
        (record p { joins = p.joins ++ join_subplan ref op subplan ∷ [] }, ok tt)

  -- `AddFilterColCol`, `AddFilterColConst`
  unfoldable pub add_filter_col_col : ColumnRef → Op → ColumnRef → Building Sub
  add_filter_col_col lref op rref p =
      passed (check_column_ref p lref >> check_column_ref p rref) p
        (record p { filters = p.filters ++ two_columns lref op rref ∷ [] }, ok tt)

  unfoldable pub add_filter_col_const : ColumnRef → Op → Field → Building Sub
  add_filter_col_const ref op const_field p =
      passed (check_column_ref p ref) p
        (record p { filters = p.filters ++ column_constant ref op const_field ∷ [] }, ok tt)

  -- `AddGroupBy`
  unfoldable pub add_group_by : ColumnRef → Building Sub
  add_group_by ref p =
      passed (check_column_ref p ref) p
        (record p { groupby_cols = p.groupby_cols ++ ref ∷ [] }, ok tt)

  -- The selects become aggregates of type NONE.
  abbrev pub convert_selects : LogicalPlan Sub → LogicalPlan Sub
  convert_selects p = record p {
    aggregates = p.aggregates ++ map (λ ref. record { col = ref; agg_type = none }) p.selects;
    selects = [];
  }

  -- `AddAggregate` behind its check and the conversion, by the type of the function
  abbrev pub add_typed :
      ColumnRef → LogicalPlan Sub → StatusOr AggregateType → LogicalPlan Sub × StatusOr (Unit {0})
  add_typed ref p (ok agg_type) = (
    record p { aggregates = p.aggregates ++ record { col = ref; agg_type = agg_type } ∷ [] },
    ok tt,
  )
  add_typed ref p (err c) = (p, err c)
  add_typed ref p fault = (p, fault)
  add_typed ref p no_fuel = (p, no_fuel)

  unfoldable pub add_aggregate : Bytes → ColumnRef → Building Sub
  add_aggregate agg_fun ref p =
      passed (check_column_ref p ref) p
        (add_typed ref (convert_selects p) (get_aggregate_type agg_fun))

  -- `AddSelect`, by the aggregates
  abbrev pub select_into :
      ColumnRef → LogicalPlan Sub → List AggregateNode → LogicalPlan Sub × StatusOr (Unit {0})
  select_into ref p [] =
      passed (check_column_ref p ref) p (record p { selects = p.selects ++ ref ∷ [] }, ok tt)
  select_into ref p (a ∷ as') = add_aggregate (aggregate_type_to_string none) ref p

  unfoldable pub add_select : ColumnRef → Building Sub
  unfolding add_aggregate
  add_select ref p = select_into ref p p.aggregates

  -- `AddOrderBy`
  unfoldable pub add_order_by : ColumnRef → Order → Building Sub
  add_order_by ref asc p =
      passed
        ((if is_valid p.order_by_column then err invalid_argument else ok tt)
          >> check_column_ref p ref)
        p (record p { order_by_column = ref; order = some asc }, ok tt)

  -- `AddLimit`
  unfoldable pub add_limit : ℤ → Building Sub
  add_limit limit p = (record p { limit = limit }, ok tt)

-- A call from outside.
pub data Call (Sub : Type 0) : Type 0 where
  scan : (table_id : ℕ) (alias : Bytes) → Call Sub
  join : (lref : ColumnRef) (op : Op) (rref : ColumnRef) → Call Sub
  subquery_join : (ref : ColumnRef) (op : Op) (subplan : Sub) → Call Sub
  filter_col_col : (lref : ColumnRef) (op : Op) (rref : ColumnRef) → Call Sub
  filter_col_const : (ref : ColumnRef) (op : Op) (const_field : Field) → Call Sub
  group_by : (ref : ColumnRef) → Call Sub
  aggregate : (agg_fun : Bytes) (ref : ColumnRef) → Call Sub
  select : (ref : ColumnRef) → Call Sub
  order_by : (ref : ColumnRef) (asc : Order) → Call Sub
  limit_to : (limit : ℤ) → Call Sub

abbrev pub run : {Sub : Type 0} → Call Sub → Building Sub
run (scan table_id alias) = add_scan table_id alias
run (join lref op rref) = add_join lref op rref
run (subquery_join ref op subplan) = add_subquery_join ref op subplan
run (filter_col_col lref op rref) = add_filter_col_col lref op rref
run (filter_col_const ref op const_field) = add_filter_col_const ref op const_field
run (group_by ref) = add_group_by ref
run (aggregate agg_fun ref) = add_aggregate agg_fun ref
run (select ref) = add_select ref
run (order_by ref asc) = add_order_by ref asc
run (limit_to limit) = add_limit limit

-- The plans that calls can make of an empty plan, those that failed included.
pub data Reachable (Sub : Type 0) (c : Catalog) : LogicalPlan Sub → Type 0 where
  start : Reachable Sub c (empty_plan c)
  step :
      {p : LogicalPlan Sub} → Reachable Sub c p → (call : Call Sub) → Reachable Sub c (run call p).0
