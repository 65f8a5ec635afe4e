-- ===== src/Execution/LogicalPlan/Physical/Outputs.antt =====
-- The operators above the joins are well formed: order, aggregates, columns and limit
-- (komfydb/execution/logical_plan/logical_plan.cc).
use mathlib.Core.Path.{subst}
use komfy_db.Base.{
  ℕ, suc, ◌+◌, ◌<◌, ◌≡◌, refl, List, [], ◌∷◌, map, length, Option, Bytes, arith, All,
  get_elem?-of_lt, inl, inr, Bool-cases, ◌&&◌, bytes_eq,
}
use komfy_db.Base.Int.{ℤ, pos, negsuc}
use komfy_db.Base.Status.{ok, or_fault, >>=-eq-ok, ok-injective}
use komfy_db.Common.TupleDesc.{TdItem, TupleDesc, get_field_type}
use komfy_db.Execution.Aggregate.{columns}
use komfy_db.Execution.Aggregator.{AggregateType}
use komfy_db.Execution.OrderBy
use komfy_db.Execution.OrderBy.{Order}
use komfy_db.Execution.Project.{create_items}
use komfy_db.Execution.LogicalPlan.{ColumnRef, AggregateNode, is_valid, LogicalPlan}
use komfy_db.Execution.LogicalPlan.Fields.{
  column_from, get_index_for_column_ref, aggregate_fields, groupby_fields, select_fields,
}
use komfy_db.Execution.LogicalPlan.Fields.Aggregated.{Fits, aggregate_fields_fit}
use komfy_db.Execution.LogicalPlan.Physical.{
  Plan, tuple_desc, aliases_of, index_of, create_aggregate, process_aggregate_nodes,
  process_select_nodes, ordered, process_order_by, process_limit,
}
use komfy_db.Execution.LogicalPlan.Physical.Generate.{outputs, finish}
use komfy_db.Execution.LogicalPlan.Physical.WellFormed.{HasField, Applies, IsWellFormed}

in_range-HasField : (td : TupleDesc) (k : ℕ) → k < length td.items → HasField td (pos k)
unfolding get_field_type
in_range-HasField td k h =
    let (item, e) = get_elem?-of_lt td.items k h in (item.field_type, rw e refl)

column_from-bound :
    (i : ℕ) (col : ColumnRef) (items : List TdItem) (aliases : List Bytes) (k : ℕ)
    → column_from i col items aliases ≡ ok k
    → k < i + length items
unfolding column_from
column_from-bound i col [] aliases k h = absurd cc
column_from-bound i col (item ∷ items) [] k h = absurd cc
column_from-bound i col (item ∷ items) (alias ∷ aliases) k h =
    elim (Bool-cases (bytes_eq col.table alias && bytes_eq item.field_name col.column)) [
      | inl e ↦ let same : i ≡ k = ok-injective (rw e at h) in omega arith
      | inr e ↦ let below = column_from-bound (suc i) col items aliases k (rw e at h) in omega arith
    ]

pub column-HasField :
    (td : TupleDesc) (aliases : List Bytes) (col : ColumnRef) (k : ℕ)
    → get_index_for_column_ref td aliases col ≡ ok k
    → HasField td (pos k)
column-HasField td aliases col k h =
    let below = column_from-bound 0 col td.items aliases k h in in_range-HasField td k (omega arith)

groupby_fields-HasField :
    (td : TupleDesc) (aliases : List Bytes) (cols : List ColumnRef) (fields : List ℕ)
    → groupby_fields td aliases cols ≡ ok fields
    → All (HasField td) (map pos fields)
unfolding groupby_fields
groupby_fields-HasField td aliases [] fields h =
    subst (λ fields. All (HasField td) (map pos fields)) (ok-injective h) tt
groupby_fields-HasField td aliases (col ∷ cols) fields h =
    let (k, e, h') = >>=-eq-ok (get_index_for_column_ref td aliases col) _ h in
    let (rest, e', h'') = >>=-eq-ok (groupby_fields td aliases cols) (λ rest. ok (k ∷ rest)) h' in
    subst (λ fields. All (HasField td) (map pos fields)) (ok-injective h'')
      (column-HasField td aliases col k e, groupby_fields-HasField td aliases cols rest e')

Fits-Applies :
    (td : TupleDesc) (fields : List (AggregateType × ℕ))
    → All (Fits td) fields
    → Applies td (map (λ f. f.0) fields) (map (λ f. pos f.1) fields)
Fits-Applies td [] h = tt
Fits-Applies td ((type, i) ∷ fields) (fits, rest) = (fits, Fits-Applies td fields rest)

process_aggregate_nodes-IsWellFormed :
    (aggregates : List AggregateNode) (cols : List ColumnRef) (child plan : Plan)
    → IsWellFormed child
    → process_aggregate_nodes aggregates cols child ≡ ok plan
    → IsWellFormed plan
unfolding process_aggregate_nodes IsWellFormed
process_aggregate_nodes-IsWellFormed aggregates cols child plan w h =
    let td = tuple_desc child in
    let aliases = aliases_of child in
    let (fields, e, k) = >>=-eq-ok (aggregate_fields td aliases aggregates) _ h in
    let (groupby, e1, k1) =
      >>=-eq-ok (groupby_fields td aliases cols) (λ g. create_aggregate fields g child) k in
    let (made, e2, k2) =
      >>=-eq-ok (columns td aliases (map (λ f. f.0) fields) (map (λ f. pos f.1) fields)) _ k1 in
    subst IsWellFormed (ok-injective k2) (
      w,
      Fits-Applies td fields (aggregate_fields_fit td aliases aggregates fields e),
      groupby_fields-HasField td aliases cols groupby e1,
      e2,
    )

process_select_nodes-IsWellFormed :
    (selects : List ColumnRef) (child plan : Plan)
    → IsWellFormed child
    → process_select_nodes selects child ≡ ok plan
    → IsWellFormed plan
unfolding process_select_nodes IsWellFormed
process_select_nodes-IsWellFormed selects child plan w h =
    let (fields, e, k) =
      >>=-eq-ok (select_fields (tuple_desc child) (aliases_of child) selects) _ h in
    let ((items, aliases), e', k') =
      >>=-eq-ok (create_items (tuple_desc child) (aliases_of child) (map pos fields)) _ k in
    subst IsWellFormed (ok-injective k') (w, e')

ordered-IsWellFormed :
    (column : ColumnRef) (order : Option Order) (child plan : Plan)
    → IsWellFormed child
    → ordered column order child ≡ ok plan
    → IsWellFormed plan
unfolding IsWellFormed
ordered-IsWellFormed column order child plan w h =
    let (field, e, k) = >>=-eq-ok (index_of child column) _ h in
    let (o, e1, k1) = >>=-eq-ok (or_fault order) _ k in
    let (u, e2, k2) = >>=-eq-ok (OrderBy.create (tuple_desc child) (pos field)) _ k1 in
    subst IsWellFormed (ok-injective k2)
      (w, column-HasField (tuple_desc child) (aliases_of child) column field e)

process_order_by-IsWellFormed :
    (column : ColumnRef) (order : Option Order) (child plan : Plan)
    → IsWellFormed child
    → process_order_by column order child ≡ ok plan
    → IsWellFormed plan
unfolding process_order_by
process_order_by-IsWellFormed column order child plan w h = elim (Bool-cases (is_valid column)) [
  | inl e ↦ ordered-IsWellFormed column order child plan w (rw e at h)
  | inr e ↦ subst IsWellFormed (ok-injective (rw e at h)) w
]

process_limit-IsWellFormed :
    (limit : ℤ) (child plan : Plan)
    → IsWellFormed child
    → process_limit limit child ≡ ok plan
    → IsWellFormed plan
unfolding process_limit IsWellFormed
process_limit-IsWellFormed (pos n) child plan w h = subst IsWellFormed (ok-injective h) w
process_limit-IsWellFormed (negsuc n) child plan w h = subst IsWellFormed (ok-injective h) w

outputs-IsWellFormed :
    (aggregates : List AggregateNode) (cols selects : List ColumnRef) (child plan : Plan)
    → IsWellFormed child
    → outputs aggregates cols selects child ≡ ok plan
    → IsWellFormed plan
outputs-IsWellFormed [] cols selects child plan w h =
    process_select_nodes-IsWellFormed selects child plan w h
outputs-IsWellFormed (a ∷ aggregates) cols selects child plan w h =
    process_aggregate_nodes-IsWellFormed (a ∷ aggregates) cols child plan w h

pub finish-IsWellFormed :
    {Sub : Type 0} (p : LogicalPlan Sub) (child plan : Plan)
    → IsWellFormed child
    → finish p child ≡ ok plan
    → IsWellFormed plan
unfolding finish
finish-IsWellFormed p child plan w h =
    let (sorted, e, k) = >>=-eq-ok (process_order_by p.order_by_column p.order child) _ h in
    let (output, e', k') =
      >>=-eq-ok (outputs p.aggregates p.groupby_cols p.selects sorted) (process_limit p.limit) k in
    process_limit-IsWellFormed p.limit output plan
      (outputs-IsWellFormed p.aggregates p.groupby_cols p.selects sorted output
        (process_order_by-IsWellFormed p.order_by_column p.order child sorted w e) e')
      k'
