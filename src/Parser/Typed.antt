-- ===== src/Parser/Typed.antt =====
-- The conditions of a plan that the parser gives compare values of one type: komfydb/parser.cc.
use mathlib.Core.List.{append-nil}
use mathlib.Core.Path.{subst}
use komfy_db.Base.{
  inl, inr, ◌≡◌, refl, sym, ◌∙◌, List, [], ◌∷◌, ◌++◌, ℕ, Option, none, some, Bytes, bytes_eq, All,
  All-append, All-imp, Option-cases,
}
use komfy_db.Base.Maps.{lookup}
use komfy_db.Base.Status.{StatusOr, ok, err, fault, no_fuel, invalid_argument}
use komfy_db.Common.Field.{FieldType, get_type}
use komfy_db.Execution.LogicalPlan.{
  ColumnRef, LogicalPlan, FilterNode, two_columns, column_constant, JoinNode, join_columns,
  join_subplan, AggregateNode, check_column_ref, get_column_type,
}
use komfy_db.Execution.LogicalPlan.Build.{
  Call, run, scan, join, subquery_join, filter_col_col, filter_col_const, group_by, aggregate,
  select, order_by, limit_to, Reachable, passed, scan_found, add_scan, add_typed, convert_selects,
  select_into, add_aggregate, add_join, add_subquery_join, add_filter_col_col, add_filter_col_const,
  add_group_by, add_select, add_order_by, add_limit,
}
use komfy_db.Execution.Aggregator.{AggregateType, get_aggregate_type, aggregate_type_to_string}
use komfy_db.Execution.LogicalPlan.Resolved.{IsResolved, insert_other}
use komfy_db.Execution.LogicalPlan.Reached.{Reachable-IsResolved}
use komfy_db.Parser.Built.{Built, SameType, Allowed}
use komfy_db.Parser.Kept.{generate_logical_plan-Built}
use komfy_db.Parser.Select.{generate_logical_plan}
use komfy_db.Parser.Syntax.{SelectStatement}
use komfy_db.Storage.Catalog.{Catalog}

module _ {Sub : Type 0} where
  -- A filter compares a column with a column or a constant of its type.
  abbrev pub FilterTyped : LogicalPlan Sub → FilterNode → Type 0
  FilterTyped p (two_columns lcol op rcol) = SameType p lcol rcol
  FilterTyped p (column_constant lcol op constant) = get_column_type p lcol ≡ ok (get_type constant)

  -- A join of two tables compares columns of one type.
  abbrev pub JoinTyped : LogicalPlan Sub → JoinNode Sub → Type 0
  JoinTyped p (join_columns lref op rref) = SameType p lref rref
  JoinTyped p (join_subplan lref op subplan) = Unit

  pub record IsTyped (p : LogicalPlan Sub) : Type 0 where
    pub filters : All (FilterTyped p) p.filters
    pub joins : All (JoinTyped p) p.joins

  -- The columns of `p` have their types in `q`.
  record Keeps (p q : LogicalPlan Sub) : Type 0 where
    types :
        (ref : ColumnRef) (t : FieldType)
        → get_column_type p ref ≡ ok t
        → get_column_type q ref ≡ ok t

  kept-SameType :
      {p q : LogicalPlan Sub} (l r : ColumnRef) → Keeps p q → SameType p l r → SameType q l r
  kept-SameType l r k (t, hl, hr) = (t, k.types l t hl, k.types r t hr)

  kept-FilterTyped :
      {p q : LogicalPlan Sub} → Keeps p q → (f : FilterNode) → FilterTyped p f → FilterTyped q f
  kept-FilterTyped k (two_columns lcol op rcol) h = kept-SameType lcol rcol k h
  kept-FilterTyped k (column_constant lcol op constant) h = k.types lcol (get_type constant) h

  kept-JoinTyped :
      {p q : LogicalPlan Sub} → Keeps p q → (j : JoinNode Sub) → JoinTyped p j → JoinTyped q j
  kept-JoinTyped k (join_columns lref op rref) h = kept-SameType lref rref k h
  kept-JoinTyped k (join_subplan lref op subplan) h = tt

  -- Nothing but a scan changes what the type of a column is read from.
  same_tables :
      (p q : LogicalPlan Sub) → q.catalog ≡ p.catalog → q.alias_to_id ≡ p.alias_to_id → Keeps p q
  unfolding get_column_type
  same_tables p q e e' = record { types = λ ref t h. rw (e, e') h }

  -- the conditions of `p`, kept in `q`, with those that `q` has besides
  grown :
      (p q : LogicalPlan Sub) (fs : List FilterNode) (js : List (JoinNode Sub))
      → Keeps p q
      → q.filters ≡ p.filters ++ fs
      → q.joins ≡ p.joins ++ js
      → All (FilterTyped q) fs
      → All (JoinTyped q) js
      → IsTyped p
      → IsTyped q
  grown p q fs js k ef ej hf hj t = record {
    filters = subst (All (FilterTyped q)) (sym ef) (
        All-append (FilterTyped q) p.filters fs
          (All-imp (FilterTyped p) (FilterTyped q) p.filters (kept-FilterTyped k) t.filters) hf);
    joins = subst (All (JoinTyped q)) (sym ej) (
        All-append (JoinTyped q) p.joins js
          (All-imp (JoinTyped p) (JoinTyped q) p.joins (kept-JoinTyped k) t.joins) hj);
  }

  -- a plan with the tables and conditions of `p`
  unchanged :
      (p q : LogicalPlan Sub)
      → q.catalog ≡ p.catalog
      → q.alias_to_id ≡ p.alias_to_id
      → q.filters ≡ p.filters
      → q.joins ≡ p.joins
      → IsTyped p
      → IsTyped q
  unchanged p q ec ea ef ej t =
      grown p q [] [] (same_tables p q ec ea) (ef ∙ sym (append-nil p.filters))
        (ej ∙ sym (append-nil p.joins)) tt tt t

  -- a call of which the checks may have failed
  passed-IsTyped :
      (r : StatusOr (Unit {0})) (p : LogicalPlan Sub) (done : LogicalPlan Sub × StatusOr (Unit {0}))
      → IsTyped p
      → IsTyped done.0
      → IsTyped (passed r p done).0
  passed-IsTyped (ok tt) p done h k = k
  passed-IsTyped (err c) p done h k = h
  passed-IsTyped fault p done h k = h
  passed-IsTyped no_fuel p done h k = h

  found-IsTyped :
      (id : ℕ) (alias : Bytes) (p : LogicalPlan Sub) (found : Option ℕ)
      → lookup bytes_eq alias p.alias_to_id ≡ found
      → IsTyped p
      → IsTyped (scan_found id alias p found).0
  unfolding get_column_type
  found-IsTyped id alias p (some old) e t = t
  found-IsTyped id alias p none e t =
      let q = (scan_found id alias p none).0 in
      grown p q [] [] (record { types = still }) (sym (append-nil p.filters))
        (sym (append-nil p.joins)) tt tt t
    where
      still :
          (ref : ColumnRef) (t : FieldType)
          → get_column_type p ref ≡ ok t
          → get_column_type (scan_found id alias p none).0 ref ≡ ok t
      still ref t h = elim (Option-cases (lookup bytes_eq ref.table p.alias_to_id)) [
        | inl missing ↦
            let clash : ◌≡◌ {A = StatusOr FieldType} (err invalid_argument) (ok t) =
              rw missing at h in
            cc
        | inr (old, there) ↦ rw (insert_other alias ref.table id old p.alias_to_id e there) h
      ]

  add_typed-IsTyped :
      (ref : ColumnRef) (p : LogicalPlan Sub) (r : StatusOr AggregateType)
      → IsTyped p
      → IsTyped (add_typed ref (convert_selects p) r).0
  add_typed-IsTyped ref p (ok agg_type) t = unchanged p _ refl refl refl refl t
  add_typed-IsTyped ref p (err c) t = unchanged p _ refl refl refl refl t
  add_typed-IsTyped ref p fault t = unchanged p _ refl refl refl refl t
  add_typed-IsTyped ref p no_fuel t = unchanged p _ refl refl refl refl t

  aggregate-IsTyped :
      (agg_fun : Bytes) (ref : ColumnRef) (p : LogicalPlan Sub)
      → IsTyped p
      → IsTyped (run (aggregate agg_fun ref) p).0
  unfolding add_aggregate
  aggregate-IsTyped agg_fun ref p t =
      passed-IsTyped (check_column_ref p ref) p
        (add_typed ref (convert_selects p) (get_aggregate_type agg_fun)) t
        (add_typed-IsTyped ref p (get_aggregate_type agg_fun) t)

  select-IsTyped :
      (ref : ColumnRef) (p : LogicalPlan Sub) (aggregates : List AggregateNode)
      → IsTyped p
      → IsTyped (select_into ref p aggregates).0
  select-IsTyped ref p [] t =
      passed-IsTyped (check_column_ref p ref) p
        (record p { selects = p.selects ++ ref ∷ [] }, ok tt) t
        (unchanged p _ refl refl refl refl t)
  select-IsTyped ref p (a ∷ rest) t =
      aggregate-IsTyped (aggregate_type_to_string AggregateType.none) ref p t

  run-IsTyped :
      (call : Call Sub) (p : LogicalPlan Sub) → Allowed p call → IsTyped p → IsTyped (run call p).0
  unfolding add_scan add_join add_subquery_join add_filter_col_col add_filter_col_const add_group_by
      add_select add_order_by add_limit
  run-IsTyped (scan table_id alias) p h t =
      found-IsTyped table_id alias p (lookup bytes_eq alias p.alias_to_id) refl t
  run-IsTyped (join lref op rref) p h t = passed-IsTyped _ p _ t (
      grown p _ [] (join_columns lref op rref ∷ []) (same_tables p _ refl refl)
        (sym (append-nil p.filters)) refl tt
        (kept-SameType lref rref (same_tables p _ refl refl) h, tt) t)
  run-IsTyped (subquery_join ref op subplan) p h t = passed-IsTyped _ p _ t (
      grown p _ [] (join_subplan ref op subplan ∷ []) (same_tables p _ refl refl)
        (sym (append-nil p.filters)) refl tt (tt, tt) t)
  run-IsTyped (filter_col_col lref op rref) p h t = passed-IsTyped _ p _ t (
      grown p _ (two_columns lref op rref ∷ []) [] (same_tables p _ refl refl) refl
        (sym (append-nil p.joins)) (kept-SameType lref rref (same_tables p _ refl refl) h, tt) tt t)
  run-IsTyped (filter_col_const ref op constant) p h t =
      let k =
        same_tables p (record p { filters = p.filters ++ column_constant ref op constant ∷ [] })
          refl refl in
      passed-IsTyped _ p _ t (
        grown p _ (column_constant ref op constant ∷ []) [] k refl (sym (append-nil p.joins))
          (k.types ref (get_type constant) h, tt) tt t)
  run-IsTyped (group_by ref) p h t = passed-IsTyped _ p _ t (unchanged p _ refl refl refl refl t)
  run-IsTyped (aggregate agg_fun ref) p h t = aggregate-IsTyped agg_fun ref p t
  run-IsTyped (select ref) p h t = select-IsTyped ref p p.aggregates t
  run-IsTyped (order_by ref asc) p h t =
      passed-IsTyped _ p _ t (unchanged p _ refl refl refl refl t)
  run-IsTyped (limit_to limit) p h t = unchanged p _ refl refl refl refl t

  Built-IsTyped : {c : Catalog} {p : LogicalPlan Sub} → Built Sub c p → IsTyped p
  Built-IsTyped Built.empty = record { filters = tt; joins = tt }
  Built-IsTyped (Built.called {p} b call h) = run-IsTyped call p h (Built-IsTyped b)

  Built-Reachable : {c : Catalog} {p : LogicalPlan Sub} → Built Sub c p → Reachable Sub c p
  Built-Reachable Built.empty = Reachable.start
  Built-Reachable (Built.called b call h) = Reachable.step (Built-Reachable b) call

-- Whatever SELECT the parser makes a plan of, every column that the plan names is the star or a column of
-- the table of its alias, and every filter and every join of two tables compares values of one type.
pub generate_logical_plan_sound :
    {Sub : Type 0} (pack : LogicalPlan Sub → Sub) (c : Catalog) (stmt : SelectStatement)
    {plan : LogicalPlan Sub}
    → generate_logical_plan pack c stmt ≡ ok plan
    → IsResolved plan × IsTyped plan
generate_logical_plan_sound pack c stmt h =
    let b = generate_logical_plan-Built pack c stmt h in
    (Reachable-IsResolved (Built-Reachable b), Built-IsTyped b)
