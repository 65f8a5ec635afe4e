-- ===== src/Execution/LogicalPlan/Conditions.antt =====
-- The calls that add scans, joins and filters keep a plan resolved
-- (komfydb/execution/logical_plan/logical_plan.cc).
use komfy_db.Common.Field.{Field}
use komfy_db.Base.{ℕ, refl, [], ◌∷◌, ◌++◌, if◌then◌else◌, Bytes, bytes_eq}
use komfy_db.Base.Maps.{lookup}
use komfy_db.Base.Status.{StatusOr, ok, err, unimplemented, ◌>>◌}
use komfy_db.Common.Op.{Op}
use komfy_db.Execution.LogicalPlan.{
  ColumnRef, LogicalPlan, join_columns, join_subplan, two_columns, column_constant,
  is_duplicate_condition, check_column_ref,
}
use komfy_db.Execution.LogicalPlan.Build.{
  add_scan, add_join, add_subquery_join, add_filter_col_col, add_filter_col_const,
}
use komfy_db.Execution.LogicalPlan.Resolved.{
  JoinResolves, FilterResolves, IsResolved, All-snoc, both_passed, passed-IsResolved,
  scan_found-IsResolved,
}

module _ {Sub : Type 0} where
  pub add_scan-IsResolved :
      (table_id : ℕ) (alias : Bytes) (p : LogicalPlan Sub)
      → IsResolved p
      → IsResolved (add_scan table_id alias p).0
  unfolding add_scan
  add_scan-IsResolved table_id alias p h =
      scan_found-IsResolved table_id alias p (lookup bytes_eq alias p.alias_to_id) refl h

  pub add_join-IsResolved :
      (lref : ColumnRef) (op : Op) (rref : ColumnRef) (p : LogicalPlan Sub)
      → IsResolved p
      → IsResolved (add_join lref op rref p).0
  unfolding add_join
  add_join-IsResolved lref op rref p h =
      passed-IsResolved (check_column_ref p lref >> (check_column_ref p rref >> fresh)) p
        (record p { joins = p.joins ++ join_columns lref op rref ∷ [] }, ok tt) h
        (λ k.
          let l = both_passed (check_column_ref p lref) (check_column_ref p rref >> fresh) k in
          let r = both_passed (check_column_ref p rref) fresh l.1 in
          record {
            scans = h.scans;
            joins =
                All-snoc (JoinResolves p.catalog p.alias_to_id) p.joins (join_columns lref op rref)
                  h.joins (l.0, r.0);
            filters = h.filters;
            selects = h.selects;
            aggregates = h.aggregates;
            groups = h.groups;
            order = h.order;
            exclusive = h.exclusive;
          })
    where
      fresh : StatusOr (Unit {0})
      fresh = if is_duplicate_condition lref rref p.joins then err unimplemented else ok tt

  pub add_subquery_join-IsResolved :
      (ref : ColumnRef) (op : Op) (subplan : Sub) (p : LogicalPlan Sub)
      → IsResolved p
      → IsResolved (add_subquery_join ref op subplan p).0
  unfolding add_subquery_join
  add_subquery_join-IsResolved ref op subplan p h =
      passed-IsResolved (check_column_ref p ref) p
        (record p { joins = p.joins ++ join_subplan ref op subplan ∷ [] }, ok tt) h
        (λ k. record {
          scans = h.scans;
          joins =
              All-snoc (JoinResolves p.catalog p.alias_to_id) p.joins (join_subplan ref op subplan)
                h.joins k;
          filters = h.filters;
          selects = h.selects;
          aggregates = h.aggregates;
          groups = h.groups;
          order = h.order;
          exclusive = h.exclusive;
        })

  pub add_filter_col_col-IsResolved :
      (lref : ColumnRef) (op : Op) (rref : ColumnRef) (p : LogicalPlan Sub)
      → IsResolved p
      → IsResolved (add_filter_col_col lref op rref p).0
  unfolding add_filter_col_col
  add_filter_col_col-IsResolved lref op rref p h =
      passed-IsResolved (check_column_ref p lref >> check_column_ref p rref) p
        (record p { filters = p.filters ++ two_columns lref op rref ∷ [] }, ok tt) h
        (λ k. record {
          scans = h.scans;
          joins = h.joins;
          filters =
              All-snoc (FilterResolves p.catalog p.alias_to_id) p.filters (two_columns lref op rref)
                h.filters (both_passed (check_column_ref p lref) (check_column_ref p rref) k);
          selects = h.selects;
          aggregates = h.aggregates;
          groups = h.groups;
          order = h.order;
          exclusive = h.exclusive;
        })

  pub add_filter_col_const-IsResolved :
      (ref : ColumnRef) (op : Op) (const_field : Field) (p : LogicalPlan Sub)
      → IsResolved p
      → IsResolved (add_filter_col_const ref op const_field p).0
  unfolding add_filter_col_const
  add_filter_col_const-IsResolved ref op const_field p h =
      passed-IsResolved (check_column_ref p ref) p
        (record p { filters = p.filters ++ column_constant ref op const_field ∷ [] }, ok tt) h
        (λ k. record {
          scans = h.scans;
          joins = h.joins;
          filters =
              All-snoc (FilterResolves p.catalog p.alias_to_id) p.filters
                (column_constant ref op const_field) h.filters k;
          selects = h.selects;
          aggregates = h.aggregates;
          groups = h.groups;
          order = h.order;
          exclusive = h.exclusive;
        })
