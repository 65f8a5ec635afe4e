-- ===== src/Execution/LogicalPlan/Physical/Generate.antt =====
-- The physical plan of a logical plan: komfydb/execution/logical_plan/logical_plan.cc. What a failed
-- call leaves in `equiv` and `subplans` is not seen, since the next call clears both, and nothing reads
-- `filter_selectivities`. `std::sort` is a parameter.
use komfy_db.Base.{
  ℕ, zero, suc, List, [], ◌∷◌, map, length, Option, none, some, if◌then◌else◌, Bytes, bytes_eq,
}
use komfy_db.Base.Maps.{lookup, insert}
use komfy_db.Base.Status.{StatusOr, ok, err, ◌>>=◌, or_fault, unimplemented}
use komfy_db.Common.Op.{Op}
use komfy_db.Storage.Catalog.{Catalog}
use komfy_db.Execution.LogicalPlan.{
  ColumnRef, LogicalPlan, FilterNode, two_columns, column_constant, JoinNode, join_columns,
  join_subplan, ScanNode, AggregateNode,
}
use komfy_db.Execution.LogicalPlan.Equiv.{Equiv, get_equiv, join_tables, roots}
use komfy_db.Execution.LogicalPlan.Physical.{
  Plan, create_scan, create_filter, join_two, join_first, process_aggregate_nodes,
  process_select_nodes, process_order_by, process_limit,
}

-- A plan that was moved out of the map leaves a null pointer.
abbrev pub Subplans : Type 0
Subplans = List (Bytes × Option Plan)

pub record Planning : Type 0 where
  pub equiv : Equiv
  pub subplans : Subplans

abbrev pub pointer : Option (Option Plan) → Option Plan
pointer none = none
pointer (some plan) = plan

-- `std::move(subplans[table])`: the pointer, and what stays in the map
abbrev pub subplan : Bytes → Subplans → Option Plan
subplan table m = pointer (lookup bytes_eq table m)

abbrev pub moved_out : Bytes → Subplans → Subplans
moved_out table m = insert bytes_eq table none m

-- `ProcessScanNodes`
unfoldable pub process_scan_nodes : Catalog → List ScanNode → Planning → StatusOr Planning
process_scan_nodes c [] s = ok s
process_scan_nodes c (scan ∷ scans) s = do
  seq_scan ← create_scan c scan
  process_scan_nodes c scans (record {
    equiv = insert bytes_eq scan.alias scan.alias s.equiv;
    subplans = insert bytes_eq scan.alias (some seq_scan) s.subplans;
  })

abbrev pub filter_table : FilterNode → Bytes
filter_table (two_columns lcol op rcol) = lcol.table
filter_table (column_constant lcol op constant) = lcol.table

-- `ProcessFilterNodes`
unfoldable pub process_filter_nodes : List FilterNode → Planning → StatusOr Planning
process_filter_nodes [] s = ok s
process_filter_nodes (node ∷ filters) s = do
  child ← or_fault (subplan (filter_table node) s.subplans)
  plan ← create_filter node child
  process_filter_nodes filters (record s {
    subplans =
        insert bytes_eq (filter_table node) (some plan) (moved_out (filter_table node) s.subplans);
  })

-- The plans after a join of two trees, whose plans are moved out of `m`.
unfoldable pub joined_two :
    ColumnRef → Op → ColumnRef → Bytes → Bytes → Subplans → StatusOr Subplans
joined_two lref op rref ltable rtable m = do
  plan ← join_two lref op rref (subplan ltable m) (subplan rtable (moved_out ltable m))
  ok (insert bytes_eq ltable (some plan) (moved_out rtable (moved_out ltable m)))

-- The plans after a join of a tree with the plan of a subquery.
unfoldable pub joined_first : ColumnRef → Op → Bytes → Plan → Subplans → StatusOr Subplans
joined_first lref op ltable r_child m = do
  plan ← join_first lref op (subplan ltable m) r_child
  ok (insert bytes_eq ltable (some plan) (moved_out ltable m))

-- `std::unique` with `erase`
unfoldable pub unique_from : Bytes → List Bytes → List Bytes
unique_from x [] = x ∷ []
unique_from x (y ∷ ys) =
    let same = unique_from x ys in
    let other = x ∷ unique_from y ys in if bytes_eq x y then same else other

unfoldable pub unique : List Bytes → List Bytes
unfolding unique_from
unique [] = []
unique (x ∷ xs) = unique_from x xs

-- one tree must be left
abbrev pub single : List Bytes → StatusOr Bytes
single [] = err unimplemented
single (root ∷ []) = ok root
single (root ∷ other ∷ rest) = err unimplemented

-- The operators above the joins: of aggregates, or else of columns.
abbrev pub outputs : List AggregateNode → List ColumnRef → List ColumnRef → Plan → StatusOr Plan
outputs [] groupby_cols selects plan = process_select_nodes selects plan
outputs (a ∷ aggregates) groupby_cols selects plan =
    process_aggregate_nodes (a ∷ aggregates) groupby_cols plan

unfoldable pub finish : {Sub : Type 0} → LogicalPlan Sub → Plan → StatusOr Plan
finish p plan = do
  sorted ← process_order_by p.order_by_column p.order plan
  output ← outputs p.aggregates p.groupby_cols p.selects sorted
  process_limit p.limit output

module _ (sort : List Bytes → List Bytes) where
  unfoldable pub get_subplan_roots : ℕ → Equiv → StatusOr (List Bytes)
  unfolding roots unique
  get_subplan_roots fuel equiv = do
    found ← (roots fuel (map (λ e. e.0) equiv) equiv).1
    ok (unique (sort found))

  module _ {Sub : Type 0} (generate_sub : Sub → StatusOr Plan) where
    -- `ProcessJoinNodes`; `fuel` bounds the calls of `GetEquiv`.
    unfoldable pub process_join_node : ℕ → JoinNode Sub → Planning → StatusOr Planning
    unfolding joined_two joined_first
    process_join_node fuel (join_columns lref op rref) s =
        let (equiv, tables) = join_tables fuel lref.table rref.table s.equiv in
        do
          (ltable, rtable) ← tables
          m ← joined_two lref op rref ltable rtable s.subplans
          ok (record { equiv = equiv; subplans = m })
    process_join_node fuel (join_subplan lref op sub) s =
        let (equiv, table) = get_equiv fuel lref.table s.equiv in
        do
          ltable ← table
          r_child ← generate_sub sub
          m ← joined_first lref op ltable r_child s.subplans
          ok (record { equiv = equiv; subplans = m })

    unfoldable pub process_join_nodes : ℕ → List (JoinNode Sub) → Planning → StatusOr Planning
    unfolding process_join_node
    process_join_nodes fuel [] s = ok s
    process_join_nodes fuel (node ∷ joins) s = do
      s' ← process_join_node fuel node s
      process_join_nodes fuel joins s'

    -- `GeneratePhysicalPlan`
    unfoldable pub generate_with : LogicalPlan Sub → StatusOr Plan
    unfolding process_scan_nodes process_filter_nodes process_join_nodes get_subplan_roots finish
    generate_with p = do
      scanned ← process_scan_nodes p.catalog p.scans (record { equiv = []; subplans = [] })
      filtered ← process_filter_nodes p.filters scanned
      joined ← process_join_nodes (suc (length p.joins)) p.joins filtered
      found ← get_subplan_roots (suc (length p.joins)) joined.equiv
      root ← single found
      plan ← or_fault (subplan root joined.subplans)
      finish p plan

-- Plans whose subqueries are nested at most `n` deep.
abbrev pub Nested : ℕ → Type 0
Nested zero = ⊥
Nested (suc n) = LogicalPlan (Nested n)

-- `GeneratePhysicalPlan`, with its calls for the plans of subqueries
unfoldable pub generate_physical_plan :
    (List Bytes → List Bytes) → (n : ℕ) → LogicalPlan (Nested n) → StatusOr Plan
unfolding generate_with
generate_physical_plan sort zero p = generate_with sort (λ sub. absurd sub) p
generate_physical_plan sort (suc n) p = generate_with sort (generate_physical_plan sort n) p
