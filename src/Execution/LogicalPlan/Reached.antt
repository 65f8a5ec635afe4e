-- ===== src/Execution/LogicalPlan/Reached.antt =====
-- Every plan that calls can build is resolved (komfydb/execution/logical_plan/logical_plan.cc).
use komfy_db.Base.Int.{ℤ}
use komfy_db.Base.{
  ◌≡◌, refl, inl, inr, true, false, List, [], ◌∷◌, ◌++◌, map, some, if◌then◌else◌, Bytes, All,
  All-append,
}
use komfy_db.Base.Status.{StatusOr, ok, err, fault, no_fuel, invalid_argument, ◌>>◌}
use komfy_db.Execution.Aggregator.{AggregateType, get_aggregate_type, aggregate_type_to_string}
use komfy_db.Storage.Catalog.{Catalog}
use komfy_db.Execution.LogicalPlan.{
  ColumnRef, LogicalPlan, AggregateNode, is_valid, check_column_ref,
}
use komfy_db.Execution.LogicalPlan.Build.{
  add_typed, select_into, add_group_by, convert_selects, add_aggregate, add_select, add_order_by,
  add_limit, Call, run, Reachable, scan, join, subquery_join, filter_col_col, filter_col_const,
  group_by, aggregate, select, order_by, limit_to,
}
use komfy_db.Execution.OrderBy.{Order}
use komfy_db.Execution.LogicalPlan.Resolved.{
  Resolves, IsResolved, All-snoc, both_passed, passed-IsResolved,
}
use komfy_db.Execution.LogicalPlan.Conditions.{
  add_scan-IsResolved, add_join-IsResolved, add_subquery_join-IsResolved,
  add_filter_col_col-IsResolved, add_filter_col_const-IsResolved,
}

module _ {Sub : Type 0} where
  add_group_by-IsResolved :
      (ref : ColumnRef) (p : LogicalPlan Sub) → IsResolved p → IsResolved (add_group_by ref p).0
  unfolding add_group_by
  add_group_by-IsResolved ref p h =
      passed-IsResolved (check_column_ref p ref) p
        (record p { groupby_cols = p.groupby_cols ++ ref ∷ [] }, ok tt) h
        (λ k. record {
          scans = h.scans;
          joins = h.joins;
          filters = h.filters;
          selects = h.selects;
          aggregates = h.aggregates;
          groups = All-snoc (Resolves p.catalog p.alias_to_id) p.groupby_cols ref h.groups k;
          order = h.order;
          exclusive = h.exclusive;
        })

  add_order_by-IsResolved :
      (ref : ColumnRef) (asc : Order) (p : LogicalPlan Sub)
      → IsResolved p
      → IsResolved (add_order_by ref asc p).0
  unfolding add_order_by
  add_order_by-IsResolved ref asc p h =
      passed-IsResolved (free >> check_column_ref p ref) p
        (record p { order_by_column = ref; order = some asc }, ok tt) h
        (λ k. record {
          scans = h.scans;
          joins = h.joins;
          filters = h.filters;
          selects = h.selects;
          aggregates = h.aggregates;
          groups = h.groups;
          order = λ v. (both_passed free (check_column_ref p ref) k).1;
          exclusive = h.exclusive;
        })
    where
      free : StatusOr (Unit {0})
      free = if is_valid p.order_by_column then err invalid_argument else ok tt

  add_aggregate-IsResolved :
      (agg_fun : Bytes) (ref : ColumnRef) (p : LogicalPlan Sub)
      → IsResolved p
      → IsResolved (add_aggregate agg_fun ref p).0
  unfolding add_aggregate
  add_aggregate-IsResolved agg_fun ref p h =
      passed-IsResolved (check_column_ref p ref) p
        (add_typed ref (convert_selects p) (get_aggregate_type agg_fun)) h
        (λ k. typed k (get_aggregate_type agg_fun))
    where
      moved :
          (refs : List ColumnRef)
          → All (Resolves p.catalog p.alias_to_id) refs
          → All
              (λ (a : AggregateNode). Resolves p.catalog p.alias_to_id a.col)
              (map (λ r. record { col = r; agg_type = AggregateType.none }) refs)
      moved [] k = tt
      moved (r ∷ refs) k = (k.0, moved refs k.1)

      converted : IsResolved (convert_selects p)
      converted = record {
        scans = h.scans;
        joins = h.joins;
        filters = h.filters;
        groups = h.groups;
        order = h.order;
        selects = tt;
        aggregates =
            All-append (λ (a : AggregateNode). Resolves p.catalog p.alias_to_id a.col) p.aggregates
              _ h.aggregates (moved p.selects h.selects);
        exclusive = inl refl;
      }

      typed :
          Resolves p.catalog p.alias_to_id ref
          → (t : StatusOr AggregateType) → IsResolved (add_typed ref (convert_selects p) t).0
      typed k (ok t) = record {
        scans = h.scans;
        joins = h.joins;
        filters = h.filters;
        groups = h.groups;
        order = h.order;
        selects = tt;
        aggregates =
            All-snoc (λ (a : AggregateNode). Resolves p.catalog p.alias_to_id a.col)
              (convert_selects p).aggregates (record { col = ref; agg_type = t })
              converted.aggregates k;
        exclusive = inl refl;
      }
      typed k (err c) = converted
      typed k fault = converted
      typed k no_fuel = converted

  select_into-IsResolved :
      (ref : ColumnRef) (p : LogicalPlan Sub) (as' : List AggregateNode)
      → p.aggregates ≡ as'
      → IsResolved p
      → IsResolved (select_into ref p as').0
  select_into-IsResolved ref p [] e h =
      passed-IsResolved (check_column_ref p ref) p
        (record p { selects = p.selects ++ ref ∷ [] }, ok tt) h
        (λ k. record {
          scans = h.scans;
          joins = h.joins;
          filters = h.filters;
          selects = All-snoc (Resolves p.catalog p.alias_to_id) p.selects ref h.selects k;
          aggregates = h.aggregates;
          groups = h.groups;
          order = h.order;
          exclusive = inr e;
        })
  select_into-IsResolved ref p (a ∷ as') e h =
      add_aggregate-IsResolved (aggregate_type_to_string AggregateType.none) ref p h

  add_select-IsResolved :
      (ref : ColumnRef) (p : LogicalPlan Sub) → IsResolved p → IsResolved (add_select ref p).0
  unfolding add_select
  add_select-IsResolved ref p h = select_into-IsResolved ref p p.aggregates refl h

  add_limit-IsResolved :
      (limit : ℤ) (p : LogicalPlan Sub) → IsResolved p → IsResolved (add_limit limit p).0
  unfolding add_limit
  add_limit-IsResolved limit p h = record {
    scans = h.scans;
    joins = h.joins;
    filters = h.filters;
    selects = h.selects;
    aggregates = h.aggregates;
    groups = h.groups;
    order = h.order;
    exclusive = h.exclusive;
  }

  run-IsResolved :
      (call : Call Sub) (p : LogicalPlan Sub) → IsResolved p → IsResolved (run call p).0
  run-IsResolved (scan table_id alias) p h = add_scan-IsResolved table_id alias p h
  run-IsResolved (join lref op rref) p h = add_join-IsResolved lref op rref p h
  run-IsResolved (subquery_join ref op subplan) p h =
      add_subquery_join-IsResolved ref op subplan p h
  run-IsResolved (filter_col_col lref op rref) p h = add_filter_col_col-IsResolved lref op rref p h
  run-IsResolved (filter_col_const ref op f) p h = add_filter_col_const-IsResolved ref op f p h
  run-IsResolved (group_by ref) p h = add_group_by-IsResolved ref p h
  run-IsResolved (aggregate agg_fun ref) p h = add_aggregate-IsResolved agg_fun ref p h
  run-IsResolved (select ref) p h = add_select-IsResolved ref p h
  run-IsResolved (order_by ref asc) p h = add_order_by-IsResolved ref asc p h
  run-IsResolved (limit_to limit) p h = add_limit-IsResolved limit p h

-- Whatever calls built a plan, in any order and those that failed included: every column that it
-- names is the star or a column of the table of its alias, every scan is known by its alias, and it
-- does not have both selects and aggregates.
pub Reachable-IsResolved :
    {Sub : Type 0} {c : Catalog} {p : LogicalPlan Sub} → Reachable Sub c p → IsResolved p
Reachable-IsResolved Reachable.start = record {
  scans = tt;
  joins = tt;
  filters = tt;
  selects = tt;
  aggregates = tt;
  groups = tt;
  order = λ v. let clash : false ≡ true = v in cc;
  exclusive = inl refl;
}
Reachable-IsResolved (Reachable.step {p} h call) = run-IsResolved call p (Reachable-IsResolved h)
