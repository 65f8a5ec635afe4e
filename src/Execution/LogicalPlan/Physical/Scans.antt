-- ===== src/Execution/LogicalPlan/Physical/Scans.antt =====
-- The tables that a physical plan reads (komfydb/execution/logical_plan/logical_plan.cc).
use komfy_db.Base.{
  ◌≡◌, ◌≢◌, sym, ap, ◌∙◌, inl, inr, List, [], ◌∷◌, ◌++◌, Option, none, some, Bytes, bytes_eq, map,
  Bool-cases, ℕ,
}
use komfy_db.Base.Int.{ℤ, pos, negsuc}
use komfy_db.Base.Maps.{insert}
use komfy_db.Base.Status.{ok, or_fault, >>=-eq-ok, ok-injective, guard, failed_precondition}
use komfy_db.Common.Field.{type_eq}
use komfy_db.Common.Op.{Op}
use komfy_db.Common.TupleDesc.{get_field_type}
use komfy_db.Execution.Aggregate.{columns}
use komfy_db.Execution.Filter
use komfy_db.Execution.OrderBy
use komfy_db.Execution.OrderBy.{Order}
use komfy_db.Execution.Project.{create_items}
use komfy_db.Execution.LogicalPlan.{
  ColumnRef, LogicalPlan, FilterNode, AggregateNode, is_valid, get_predicate,
}
use komfy_db.Execution.LogicalPlan.Equiv.Compression.{lookup-written, lookup-other}
use komfy_db.Execution.LogicalPlan.Fields.{aggregate_fields, groupby_fields, select_fields}
use komfy_db.Execution.LogicalPlan.Physical.{
  Plan, seq_scan, filter, join, order_by, project, aggregate, limit, tuple_desc, aliases_of,
  index_of, create_filter, create_join, join_two, join_first, create_aggregate,
  process_aggregate_nodes, process_select_nodes, ordered, process_order_by, process_limit,
}
use komfy_db.Execution.LogicalPlan.Physical.Generate.{Subplans, pointer, subplan, outputs, finish}

-- The aliases under which the plan scans tables, from left to right.
unfoldable pub scanned_aliases : Plan → List Bytes
scanned_aliases (seq_scan table_id table_name alias td) = alias ∷ []
scanned_aliases (filter child predicate) = scanned_aliases child
scanned_aliases (join l_child p r_child) = scanned_aliases l_child ++ scanned_aliases r_child
scanned_aliases (order_by child field order) = scanned_aliases child
scanned_aliases (project child idxs items aliases) = scanned_aliases child
scanned_aliases (aggregate child types fields groupby cols) = scanned_aliases child
scanned_aliases (limit child n) = scanned_aliases child

abbrev SameScans : Plan → Plan → Type 0
SameScans child plan = scanned_aliases child ≡ scanned_aliases plan

-- Reads of the map of plans after a write.
pub subplan-written :
    (table : Bytes) (o : Option Plan) (m : Subplans) → subplan table (insert bytes_eq table o m) ≡ o
subplan-written table o m = ap pointer (lookup-written table o m)

pub subplan-other :
    (table other : Bytes) (o : Option Plan) (m : Subplans)
    → table ≢ other
    → subplan other (insert bytes_eq table o m) ≡ subplan other m
subplan-other table other o m h = ap pointer (lookup-other table other o m h)

pub or_fault-found : (o : Option Plan) (plan : Plan) → or_fault o ≡ ok plan → o ≡ some plan
or_fault-found none plan h = absurd cc
or_fault-found (some p) plan h = ap some (ok-injective h)

pub create_filter-scans :
    (node : FilterNode) (child plan : Plan)
    → create_filter node child ≡ ok plan
    → scanned_aliases child ≡ scanned_aliases plan
unfolding create_filter scanned_aliases
create_filter-scans node child plan h =
    let (p, e, k) = >>=-eq-ok (get_predicate (tuple_desc child) node) _ h in
    let (u, e', k') = >>=-eq-ok (Filter.create (tuple_desc child) p) _ k in
    ap scanned_aliases (ok-injective k')

create_join-scans :
    (l : Plan) (i : ℕ) (op : Op) (r : Plan) (j : ℕ) (plan : Plan)
    → create_join l i op r j ≡ ok plan
    → scanned_aliases plan ≡ scanned_aliases l ++ scanned_aliases r
unfolding create_join scanned_aliases
create_join-scans l i op r j plan h =
    let (t, e, k) = >>=-eq-ok (get_field_type (tuple_desc l) (pos i)) _ h in
    let (t', e', k') = >>=-eq-ok (get_field_type (tuple_desc r) (pos j)) _ k in
    let (u, e'', k'') = >>=-eq-ok (guard (type_eq t t') failed_precondition) _ k' in
    ap scanned_aliases (sym (ok-injective k''))

-- A join that is made has two sides, and scans what they scan.
pub join_two-scans :
    (lref : ColumnRef) (op : Op) (rref : ColumnRef) (l r : Option Plan) (plan : Plan)
    → join_two lref op rref l r ≡ ok plan
    → (l' r' : Plan) × (l ≡ some l')
      × (r ≡ some r')
      × (scanned_aliases plan ≡ scanned_aliases l' ++ scanned_aliases r')
unfolding join_two
join_two-scans lref op rref l r plan h =
    let (l', a, k) = >>=-eq-ok (or_fault l) _ h in
    let (i, _, k1) = >>=-eq-ok (index_of l' lref) _ k in
    let (r', b, k2) = >>=-eq-ok (or_fault r) _ k1 in
    let (j, _, k3) = >>=-eq-ok (index_of r' rref) (create_join l' i op r') k2 in
    (l', r', or_fault-found l l' a, or_fault-found r r' b, create_join-scans l' i op r' j plan k3)

pub join_first-scans :
    (lref : ColumnRef) (op : Op) (l : Option Plan) (r plan : Plan)
    → join_first lref op l r ≡ ok plan
    → (l' : Plan) × (l ≡ some l') × (scanned_aliases plan ≡ scanned_aliases l' ++ scanned_aliases r)
unfolding join_first
join_first-scans lref op l r plan h =
    let (l', a, k) = >>=-eq-ok (or_fault l) _ h in
    let (i, _, k1) = >>=-eq-ok (index_of l' lref) (λ i. create_join l' i op r 0) k in
    (l', or_fault-found l l' a, create_join-scans l' i op r 0 plan k1)

ordered-scans :
    (column : ColumnRef) (order : Option Order) (child plan : Plan)
    → ordered column order child ≡ ok plan
    → SameScans child plan
unfolding scanned_aliases
ordered-scans column order child plan h =
    let (field, e, k) = >>=-eq-ok (index_of child column) _ h in
    let (o, e1, k1) = >>=-eq-ok (or_fault order) _ k in
    let (u, e2, k2) = >>=-eq-ok (OrderBy.create (tuple_desc child) (pos field)) _ k1 in
    ap scanned_aliases (ok-injective k2)

process_order_by-scans :
    (column : ColumnRef) (order : Option Order) (child plan : Plan)
    → process_order_by column order child ≡ ok plan
    → SameScans child plan
unfolding process_order_by
process_order_by-scans column order child plan h = elim (Bool-cases (is_valid column)) [
  | inl e ↦ ordered-scans column order child plan (rw e at h)
  | inr e ↦ ap scanned_aliases (ok-injective (rw e at h))
]

outputs-scans :
    (aggregates : List AggregateNode) (cols selects : List ColumnRef) (child plan : Plan)
    → outputs aggregates cols selects child ≡ ok plan
    → SameScans child plan
unfolding process_select_nodes process_aggregate_nodes scanned_aliases
outputs-scans [] cols selects child plan h =
    let (fields, e, k) =
      >>=-eq-ok (select_fields (tuple_desc child) (aliases_of child) selects) _ h in
    let (made, e', k') =
      >>=-eq-ok (create_items (tuple_desc child) (aliases_of child) (map pos fields)) _ k in
    ap scanned_aliases (ok-injective k')
outputs-scans (a ∷ aggregates) cols selects child plan h =
    let td = tuple_desc child in
    let aliases = aliases_of child in
    let (fields, e, k) = >>=-eq-ok (aggregate_fields td aliases (a ∷ aggregates)) _ h in
    let (groupby, e1, k1) =
      >>=-eq-ok (groupby_fields td aliases cols) (λ g. create_aggregate fields g child) k in
    let (made, e2, k2) =
      >>=-eq-ok (columns td aliases (map (λ f. f.0) fields) (map (λ f. pos f.1) fields)) _ k1 in
    ap scanned_aliases (ok-injective k2)

process_limit-scans :
    (limit : ℤ) (child plan : Plan) → process_limit limit child ≡ ok plan → SameScans child plan
unfolding process_limit scanned_aliases
process_limit-scans (pos n) child plan h = ap scanned_aliases (ok-injective h)
process_limit-scans (negsuc n) child plan h = ap scanned_aliases (ok-injective h)

-- The operators above the joins scan nothing more and nothing less.
pub finish-scans :
    {Sub : Type 0} (p : LogicalPlan Sub) (child plan : Plan)
    → finish p child ≡ ok plan
    → scanned_aliases child ≡ scanned_aliases plan
unfolding finish
finish-scans p child plan h =
    let (sorted, e, k) = >>=-eq-ok (process_order_by p.order_by_column p.order child) _ h in
    let (output, e', k') =
      >>=-eq-ok (outputs p.aggregates p.groupby_cols p.selects sorted) (process_limit p.limit) k in
    process_order_by-scans p.order_by_column p.order child sorted e
    ∙ outputs-scans p.aggregates p.groupby_cols p.selects sorted output e'
    ∙ process_limit-scans p.limit output plan k'
