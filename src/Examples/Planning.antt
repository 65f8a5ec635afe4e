-- ===== src/Examples/Planning.antt =====
-- Examples for physical plans.
use mathlib.Core.List.{Memᴰ}
use komfy_db.Base.{ℕ, ◌≡◌, ◌≢◌, ◌⊎◌, refl, some, List, [], ◌∷◌, Bytes, codes, bytes_eq}
use komfy_db.Base.Int.{pos}
use komfy_db.Base.Maps.{lookup, insert}
use komfy_db.Base.Status.{ok, err, fault, no_fuel, invalid_argument, unimplemented}
use komfy_db.Common.Field.{int, string, int_field, type_eq}
use komfy_db.Common.Op.{Op}
use komfy_db.Common.TupleDesc
use komfy_db.Common.TupleDesc.{
  TdItem, TupleDesc, get_field_type, get_field_name, get_item, index_for_field_name,
}
use komfy_db.Storage.Catalog
use komfy_db.Storage.Catalog.{add_table, get_table_name, get_database_file}
use komfy_db.Execution.Aggregate.{columns}
use komfy_db.Execution.Filter
use komfy_db.Execution.OrderBy
use komfy_db.Execution.Project.{create_items}
use komfy_db.Execution.LogicalPlan.Equiv.{join_tables, get_equiv, roots}
use komfy_db.Execution.LogicalPlan.Fields.{
  column_from, aggregate_field, aggregate_fields, groupby_fields, select_fields,
}
use komfy_db.Execution.Aggregator.{AggregateType, is_applicable, aggregate_type_to_string}
use komfy_db.Execution.OrderBy.{Order}
use komfy_db.Execution.Predicate.{col_const, JoinPredicate}
use komfy_db.Execution.LogicalPlan.{
  ColumnRef, LogicalPlan, ScanNode, join_columns, join_subplan, column_constant, empty_plan,
  get_predicate, is_star,
}
use komfy_db.Execution.LogicalPlan.Physical.{
  Plan, seq_scan, filter, join, order_by, project, aggregate, limit, tuple_desc, aliases_of,
  index_of, create_scan, create_filter, join_two, join_first, process_aggregate_nodes,
  process_limit, process_order_by, process_select_nodes,
}
use komfy_db.Execution.LogicalPlan.Physical.Aligned.{index_of_lem}
use komfy_db.Execution.LogicalPlan.Physical.Complete.{generate_physical_plan-scans}
use komfy_db.Execution.LogicalPlan.Physical.Scans.{scanned_aliases}
use komfy_db.Execution.LogicalPlan.Physical.Ending.{IsScoped, generate_physical_plan-ends}
use komfy_db.Execution.LogicalPlan.Physical.Generate.{Nested, generate_with, generate_physical_plan}
use komfy_db.Execution.LogicalPlan.Physical.Planned.{generate_physical_plan-IsWellFormed}
use komfy_db.Execution.LogicalPlan.Physical.WellFormed.{IsWellFormed, HasField}
use komfy_db.Examples.{people}
use komfy_db.Examples.Pools.{tables}

abbrev as_given : List Bytes → List Bytes
as_given names = names

abbrev id_of : Bytes → ColumnRef
id_of alias = record { table = alias; column = codes "id" }

abbrev name_of : Bytes → ColumnRef
name_of alias = record { table = alias; column = codes "name" }

abbrev scan_as : Bytes → ScanNode
scan_as alias = record { id = 7; alias = alias }

-- select max(r.id) from people r
abbrev greatest_id : LogicalPlan (Nested 0)
greatest_id = record (empty_plan tables) {
  scans = scan_as (codes "r") ∷ [];
  aggregates = record { col = id_of (codes "r"); agg_type = AggregateType.max } ∷ [];
}

-- The pairs of people of one id that is the greatest, by name: a filter, a join, a subquery, an order,
-- and a limit.
abbrev pairs : LogicalPlan (Nested 1)
pairs = record (empty_plan tables) {
  scans = scan_as (codes "p") ∷ scan_as (codes "q") ∷ [];
  filters = column_constant (id_of (codes "p")) Op.greater_than (int_field (pos 0)) ∷ [];
  joins =
      join_columns (id_of (codes "p")) Op.equals (id_of (codes "q"))
      ∷ join_subplan (id_of (codes "q")) Op.equals greatest_id
      ∷ [];
  selects = name_of (codes "p") ∷ name_of (codes "q") ∷ [];
  order_by_column = name_of (codes "q");
  order = some Order.ascending;
  limit = pos 5;
}

abbrev scanned : Bytes → Plan
scanned alias = seq_scan 7 (codes "people") alias people

abbrev greatest_id_plan : Plan
greatest_id_plan =
    aggregate (scanned (codes "r")) (AggregateType.max ∷ []) (pos 0 ∷ []) []
      ((int, codes "max__id", codes "__aggregate__") ∷ [])

abbrev by_field : ℕ → JoinPredicate
by_field i = record { l_field_idx = pos i; op = Op.equals; r_field_idx = pos 0 }

abbrev pairs_joined : Plan
pairs_joined =
    join
      (join (filter (scanned (codes "p")) (col_const (pos 0) Op.greater_than (int_field (pos 0))))
        (by_field 0) (scanned (codes "q")))
      (by_field 2) greatest_id_plan

abbrev text_item : TdItem
text_item = record { field_type = string; field_name = codes "name" }

abbrev pairs_plan : Plan
pairs_plan =
    limit
      (project (order_by pairs_joined 3 Order.ascending) (pos 1 ∷ pos 3 ∷ [])
        (text_item ∷ text_item ∷ []) (codes "p" ∷ codes "q" ∷ []))
      5

pairs_made : generate_physical_plan as_given 1 pairs ≡ ok pairs_plan
unfolding generate_physical_plan create_scan get_table_name lookup add_table Catalog.get_tuple_desc
    bytes_eq create_filter get_predicate index_for_field_name tuple_desc Filter.create
    get_field_type aggregate_field join_tables get_equiv join_two column_from aliases_of insert
    type_eq get_field_name get_item TupleDesc.join columns aggregate_type_to_string is_applicable
    roots aggregate_fields groupby_fields select_fields generate_with join_first
    process_aggregate_nodes process_limit process_order_by process_select_nodes is_star
    OrderBy.create create_items get_database_file
pairs_made = refl

generate_physical_plan-IsWellFormed_example : IsWellFormed pairs_plan
generate_physical_plan-IsWellFormed_example =
    generate_physical_plan-IsWellFormed as_given 1 pairs pairs_plan pairs_made

greatest_id-IsScoped : IsScoped 0 greatest_id
unfolding IsScoped
greatest_id-IsScoped = tt

pairs-IsScoped : IsScoped 1 pairs
unfolding IsScoped
pairs-IsScoped = (
  ((Memᴰ.head refl, Memᴰ.tail (Memᴰ.head refl)), (Memᴰ.tail (Memᴰ.head refl), tt)),
  (tt, (greatest_id-IsScoped, tt)),
)

generate_physical_plan-ends_example : generate_physical_plan as_given 1 pairs ≢ no_fuel
generate_physical_plan-ends_example = generate_physical_plan-ends as_given 1 pairs pairs-IsScoped

index_of_lem_example :
    ((k : ℕ) × (index_of pairs_plan (name_of (codes "q")) ≡ ok k)
      × HasField (tuple_desc pairs_plan) (pos k))
    ⊎ (index_of pairs_plan (name_of (codes "q")) ≡ err invalid_argument)
index_of_lem_example =
    index_of_lem pairs_plan (name_of (codes "q"))
      (generate_physical_plan-IsWellFormed as_given 1 pairs pairs_plan pairs_made)

-- Three tables joined in a circle: the third join finds both sides in one tree, and its right side
-- moved out.
abbrev circle : LogicalPlan (Nested 0)
circle = record (empty_plan tables) {
  scans = scan_as (codes "p") ∷ scan_as (codes "q") ∷ scan_as (codes "r") ∷ [];
  joins =
      join_columns (id_of (codes "p")) Op.equals (id_of (codes "q"))
      ∷ join_columns (id_of (codes "q")) Op.equals (id_of (codes "r"))
      ∷ join_columns (id_of (codes "p")) Op.equals (id_of (codes "r"))
      ∷ [];
  selects = name_of (codes "p") ∷ [];
}

circle_faults : generate_physical_plan as_given 0 circle ≡ fault
unfolding generate_physical_plan create_scan get_table_name lookup add_table Catalog.get_tuple_desc
    bytes_eq create_filter get_predicate index_for_field_name tuple_desc Filter.create
    get_field_type join_tables get_equiv join_two column_from aliases_of insert type_eq
    get_field_name get_item TupleDesc.join columns aggregate_type_to_string is_applicable roots
    aggregate_fields groupby_fields select_fields generate_with join_first process_aggregate_nodes
    process_limit process_order_by process_select_nodes is_star OrderBy.create create_items
    get_database_file
circle_faults = refl

-- Two tables that no join puts together.
abbrev product : LogicalPlan (Nested 0)
product = record (empty_plan tables) {
  scans = scan_as (codes "p") ∷ scan_as (codes "q") ∷ [];
  selects = name_of (codes "p") ∷ [];
}

product_refused : generate_physical_plan as_given 0 product ≡ err unimplemented
unfolding generate_physical_plan create_scan get_table_name lookup add_table Catalog.get_tuple_desc
    bytes_eq create_filter get_predicate index_for_field_name tuple_desc Filter.create
    get_field_type join_tables get_equiv join_two column_from aliases_of insert type_eq
    get_field_name get_item TupleDesc.join columns aggregate_type_to_string is_applicable roots
    aggregate_fields groupby_fields select_fields generate_with join_first process_aggregate_nodes
    process_limit process_order_by process_select_nodes is_star OrderBy.create create_items
    get_database_file
product_refused = refl

as_given-keeps : (xs : List Bytes) (x : Bytes) → Memᴰ x xs → Memᴰ x (as_given xs)
as_given-keeps xs x m = m

generate_physical_plan-scans_example : Memᴰ (codes "q") (scanned_aliases pairs_plan)
generate_physical_plan-scans_example =
    generate_physical_plan-scans as_given as_given-keeps 1 pairs pairs_plan (codes "q")
      ((Memᴰ.head refl, Memᴰ.tail (Memᴰ.head refl)), (Memᴰ.tail (Memᴰ.head refl), tt)) pairs_made
      (Memᴰ.tail (Memᴰ.head refl))
