-- ===== src/Execution/LogicalPlan/Physical/Finishing.antt =====
-- The calls that make the operators above the joins return
-- (komfydb/execution/logical_plan/logical_plan.cc).
use komfy_db.Base.{List, [], ◌∷◌, map, Option, Bytes, at?, ◌&&◌}
use komfy_db.Base.Ends.{Returns, >>=-Returns, or_fault-Returns}
use komfy_db.Base.Int.{ℤ, pos, negsuc}
use komfy_db.Base.Status.{ok, or_fault}
use komfy_db.Common.TupleDesc.{TupleDesc, get_item, get_field_type, get_field_name}
use komfy_db.Execution.Aggregate.{column, columns}
use komfy_db.Execution.Aggregator.{AggregateType, is_applicable}
use komfy_db.Execution.OrderBy
use komfy_db.Execution.OrderBy.{Order}
use komfy_db.Execution.Project.{create_items}
use komfy_db.Execution.LogicalPlan.{ColumnRef, LogicalPlan, AggregateNode, is_valid, is_star}
use komfy_db.Execution.LogicalPlan.Fields.{
  get_index_for_column_ref, is_none, aggregate_field, aggregate_fields, groupby_fields,
  select_field, select_fields,
}
use komfy_db.Execution.LogicalPlan.Physical.{
  Plan, tuple_desc, aliases_of, index_of, process_aggregate_nodes, process_select_nodes, ordered,
  process_order_by, process_limit,
}
use komfy_db.Execution.LogicalPlan.Physical.Generate.{outputs, finish}
use komfy_db.Execution.LogicalPlan.Physical.Returning.{
  if-Returns, get_item-Returns, get_field_type-Returns, get_field_name-Returns, column_from-Returns,
  index_of-Returns,
}

column-Returns :
    (td : TupleDesc) (aliases : List Bytes) (type : AggregateType) (i : ℤ)
    → Returns (column td aliases type i)
unfolding column
column-Returns td aliases AggregateType.none i =
    >>=-Returns (get_field_type td i) _ (get_field_type-Returns td i) λ t.
      >>=-Returns (get_field_name td i) _ (get_field_name-Returns td i) λ name.
        >>=-Returns (or_fault (at? aliases i)) _ (or_fault-Returns (at? aliases i)) λ alias. tt
column-Returns td aliases AggregateType.max i =
    >>=-Returns (get_field_name td i) _ (get_field_name-Returns td i) λ name. tt
column-Returns td aliases AggregateType.min i =
    >>=-Returns (get_field_name td i) _ (get_field_name-Returns td i) λ name. tt
column-Returns td aliases AggregateType.sum i =
    >>=-Returns (get_field_name td i) _ (get_field_name-Returns td i) λ name. tt
column-Returns td aliases AggregateType.avg i =
    >>=-Returns (get_field_name td i) _ (get_field_name-Returns td i) λ name. tt
column-Returns td aliases AggregateType.count i =
    >>=-Returns (get_field_name td i) _ (get_field_name-Returns td i) λ name. tt

columns-Returns :
    (td : TupleDesc) (aliases : List Bytes) (types : List AggregateType) (fields : List ℤ)
    → Returns (columns td aliases types fields)
unfolding columns
columns-Returns td aliases [] fields = tt
columns-Returns td aliases (type ∷ types) [] = tt
columns-Returns td aliases (type ∷ types) (i ∷ fields) =
    >>=-Returns (column td aliases type i) _ (column-Returns td aliases type i) λ c.
      >>=-Returns (columns td aliases types fields) _ (columns-Returns td aliases types fields)
        λ r. tt

aggregate_field-Returns :
    (td : TupleDesc) (aliases : List Bytes) (a : AggregateNode)
    → Returns (aggregate_field td aliases a)
unfolding aggregate_field
aggregate_field-Returns td aliases a = if-Returns (is_none a.agg_type && is_star a.col) _ _ tt (
    >>=-Returns (get_index_for_column_ref td aliases a.col) _
      (column_from-Returns 0 a.col td.items aliases)
      λ field.
        >>=-Returns (get_field_type td (pos field)) _ (get_field_type-Returns td (pos field))
          λ t. if-Returns (is_applicable a.agg_type t) _ _ tt tt)

aggregate_fields-Returns :
    (td : TupleDesc) (aliases : List Bytes) (aggregates : List AggregateNode)
    → Returns (aggregate_fields td aliases aggregates)
unfolding aggregate_fields
aggregate_fields-Returns td aliases [] = tt
aggregate_fields-Returns td aliases (a ∷ aggregates) =
    >>=-Returns (aggregate_field td aliases a) _ (aggregate_field-Returns td aliases a) λ fields.
      >>=-Returns (aggregate_fields td aliases aggregates) _
        (aggregate_fields-Returns td aliases aggregates) λ rest. tt

groupby_fields-Returns :
    (td : TupleDesc) (aliases : List Bytes) (cols : List ColumnRef)
    → Returns (groupby_fields td aliases cols)
unfolding groupby_fields
groupby_fields-Returns td aliases [] = tt
groupby_fields-Returns td aliases (col ∷ cols) =
    >>=-Returns (get_index_for_column_ref td aliases col) _
      (column_from-Returns 0 col td.items aliases)
      λ field.
        >>=-Returns (groupby_fields td aliases cols) _ (groupby_fields-Returns td aliases cols)
          λ rest. tt

select_fields-Returns :
    (td : TupleDesc) (aliases : List Bytes) (selects : List ColumnRef)
    → Returns (select_fields td aliases selects)
unfolding select_fields
select_fields-Returns td aliases [] = tt
select_fields-Returns td aliases (ref ∷ selects) =
    >>=-Returns (select_field td aliases ref) _
      (if-Returns (is_star ref) _ _ tt (
        >>=-Returns (get_index_for_column_ref td aliases ref) _
          (column_from-Returns 0 ref td.items aliases) λ idx. tt))
      λ fields.
        >>=-Returns (select_fields td aliases selects) _ (select_fields-Returns td aliases selects)
          λ rest. tt

create_items-Returns :
    (td : TupleDesc) (aliases : List Bytes) (idxs : List ℤ) → Returns (create_items td aliases idxs)
unfolding create_items
create_items-Returns td aliases [] = tt
create_items-Returns td aliases (idx ∷ idxs) =
    >>=-Returns (get_item td idx) _ (get_item-Returns td idx) λ item.
      >>=-Returns (or_fault (at? aliases idx)) _ (or_fault-Returns (at? aliases idx)) λ alias.
        >>=-Returns (create_items td aliases idxs) _ (create_items-Returns td aliases idxs)
          λ rest. tt

process_aggregate_nodes-Returns :
    (aggregates : List AggregateNode) (cols : List ColumnRef) (child : Plan)
    → Returns (process_aggregate_nodes aggregates cols child)
unfolding process_aggregate_nodes
process_aggregate_nodes-Returns aggregates cols child =
    let td = tuple_desc child in
    let aliases = aliases_of child in
    >>=-Returns (aggregate_fields td aliases aggregates) _
      (aggregate_fields-Returns td aliases aggregates)
      λ fields.
        >>=-Returns (groupby_fields td aliases cols) _ (groupby_fields-Returns td aliases cols)
          λ groupby.
            >>=-Returns (columns td aliases (map (λ f. f.0) fields) (map (λ f. pos f.1) fields)) _
              (columns-Returns td aliases (map (λ f. f.0) fields) (map (λ f. pos f.1) fields))
              λ c. tt

process_select_nodes-Returns :
    (selects : List ColumnRef) (child : Plan) → Returns (process_select_nodes selects child)
unfolding process_select_nodes
process_select_nodes-Returns selects child =
    let td = tuple_desc child in
    let aliases = aliases_of child in
    >>=-Returns (select_fields td aliases selects) _ (select_fields-Returns td aliases selects)
      λ fields.
        >>=-Returns (create_items td aliases (map pos fields)) _
          (create_items-Returns td aliases (map pos fields)) λ made. tt

process_order_by-Returns :
    (column : ColumnRef) (order : Option Order) (child : Plan)
    → Returns (process_order_by column order child)
unfolding process_order_by OrderBy.create
process_order_by-Returns column order child =
    if-Returns (is_valid column) (ordered column order child) (ok child)
      (>>=-Returns (index_of child column) _ (index_of-Returns child column) λ field.
        >>=-Returns (or_fault order) _ (or_fault-Returns order) λ o.
          >>=-Returns (OrderBy.create (tuple_desc child) (pos field)) _
            (>>=-Returns (get_field_type (tuple_desc child) (pos field)) _
              (get_field_type-Returns (tuple_desc child) (pos field)) λ t. tt)
            λ u. tt)
      tt

process_limit-Returns : (limit : ℤ) (child : Plan) → Returns (process_limit limit child)
unfolding process_limit
process_limit-Returns (pos n) child = tt
process_limit-Returns (negsuc n) child = tt

outputs-Returns :
    (aggregates : List AggregateNode) (cols selects : List ColumnRef) (child : Plan)
    → Returns (outputs aggregates cols selects child)
outputs-Returns [] cols selects child = process_select_nodes-Returns selects child
outputs-Returns (a ∷ aggregates) cols selects child =
    process_aggregate_nodes-Returns (a ∷ aggregates) cols child

pub finish-Returns : {Sub : Type 0} (p : LogicalPlan Sub) (child : Plan) → Returns (finish p child)
unfolding finish
finish-Returns p child =
    >>=-Returns (process_order_by p.order_by_column p.order child) _
      (process_order_by-Returns p.order_by_column p.order child)
      λ sorted.
        >>=-Returns (outputs p.aggregates p.groupby_cols p.selects sorted) _
          (outputs-Returns p.aggregates p.groupby_cols p.selects sorted)
          λ output. process_limit-Returns p.limit output
