-- ===== src/Execution/LogicalPlan/Physical/Planned.antt =====
-- The physical plans that logical plans are made into are well formed
-- (komfydb/execution/logical_plan/logical_plan.cc).
use mathlib.Core.Path.{subst}
use komfy_db.Base.{
  same_or_other, ℕ, zero, suc, ◌≡◌, sym, inl, inr, List, [], ◌∷◌, length, Option, none, some, Bytes,
  bytes_eq,
}
use komfy_db.Base.Maps.{lookup, insert}
use komfy_db.Base.Status.{StatusOr, ok, or_fault, >>=-eq-ok, ok-injective}
use komfy_db.Storage.Catalog.{Catalog, get_table_name, get_tuple_desc}
use komfy_db.Execution.LogicalPlan.{
  LogicalPlan, FilterNode, JoinNode, join_columns, join_subplan, ScanNode,
}
use komfy_db.Execution.LogicalPlan.Equiv.{get_equiv, join_tables}
use komfy_db.Execution.LogicalPlan.Equiv.Compression.{lookup-written, lookup-other}
use komfy_db.Execution.LogicalPlan.Physical.{Plan, create_scan, create_filter, join_two, join_first}
use komfy_db.Execution.LogicalPlan.Physical.Generate.{
  Subplans, Planning, pointer, subplan, moved_out, process_scan_nodes, filter_table,
  process_filter_nodes, joined_two, joined_first, process_join_node, process_join_nodes,
  get_subplan_roots, single, finish, generate_with, Nested, generate_physical_plan,
}
use komfy_db.Execution.LogicalPlan.Physical.Outputs.{finish-IsWellFormed}
use komfy_db.Execution.LogicalPlan.Physical.WellFormed.{
  IsWellFormed, PointsWell, or_fault-IsWellFormed, create_filter-IsWellFormed,
  join_two-IsWellFormed, join_first-IsWellFormed,
}

-- Each plan that is in the map is well formed.
abbrev AllWell : Subplans → Type 0
AllWell m = (table : Bytes) → PointsWell (subplan table m)

insert-AllWell :
    (table : Bytes) (o : Option Plan) (m : Subplans)
    → AllWell m
    → PointsWell o
    → AllWell (insert bytes_eq table o m)
insert-AllWell table o m w v other = elim (same_or_other table other) [
  | inl same ↦
      subst (λ t. PointsWell (subplan t (insert bytes_eq table o m))) same
        (subst (λ found. PointsWell (pointer found)) (sym (lookup-written table o m)) v)
  | inr differs ↦
      subst (λ found. PointsWell (pointer found)) (sym (lookup-other table other o m differs))
        (w other)
]

moved_out-AllWell : (table : Bytes) (m : Subplans) → AllWell m → AllWell (moved_out table m)
moved_out-AllWell table m w = insert-AllWell table none m w tt

create_scan-IsWellFormed :
    (c : Catalog) (scan : ScanNode) (plan : Plan) → create_scan c scan ≡ ok plan → IsWellFormed plan
unfolding create_scan IsWellFormed
create_scan-IsWellFormed c scan plan h =
    let (name, e, k) = >>=-eq-ok (get_table_name c scan.id) _ h in
    let (td, e', k') = >>=-eq-ok (get_tuple_desc c scan.id) _ k in
    subst IsWellFormed (ok-injective k') tt

process_scan_nodes-AllWell :
    (c : Catalog) (scans : List ScanNode) (s t : Planning)
    → AllWell s.subplans
    → process_scan_nodes c scans s ≡ ok t
    → AllWell t.subplans
unfolding process_scan_nodes
process_scan_nodes-AllWell c [] s t w h =
    subst (λ (t : Planning). AllWell t.subplans) (ok-injective h) w
process_scan_nodes-AllWell c (scan ∷ scans) s t w h =
    let (plan, e, k) = >>=-eq-ok (create_scan c scan) _ h in
    process_scan_nodes-AllWell c scans _ t
      (insert-AllWell scan.alias (some plan) s.subplans w (create_scan-IsWellFormed c scan plan e))
      k

process_filter_nodes-AllWell :
    (filters : List FilterNode) (s t : Planning)
    → AllWell s.subplans
    → process_filter_nodes filters s ≡ ok t
    → AllWell t.subplans
unfolding process_filter_nodes
process_filter_nodes-AllWell [] s t w h =
    subst (λ (t : Planning). AllWell t.subplans) (ok-injective h) w
process_filter_nodes-AllWell (node ∷ filters) s t w h =
    let table = filter_table node in
    let (child, e, k) = >>=-eq-ok (or_fault (subplan table s.subplans)) _ h in
    let (plan, e', k') = >>=-eq-ok (create_filter node child) _ k in
    process_filter_nodes-AllWell filters _ t
      (insert-AllWell table (some plan) (moved_out table s.subplans)
        (moved_out-AllWell table s.subplans w)
        (create_filter-IsWellFormed node child plan
          (or_fault-IsWellFormed (subplan table s.subplans) child (w table) e) e'))
      k'

module _ (sort : List Bytes → List Bytes) {Sub : Type 0} (generate_sub : Sub → StatusOr Plan)
    (sub_well : (sub : Sub) (plan : Plan) → generate_sub sub ≡ ok plan → IsWellFormed plan) where
  process_join_node-AllWell :
      (fuel : ℕ) (node : JoinNode Sub) (s t : Planning)
      → AllWell s.subplans
      → process_join_node sort generate_sub fuel node s ≡ ok t
      → AllWell t.subplans
  unfolding process_join_node joined_two joined_first
  process_join_node-AllWell fuel (join_columns lref op rref) s t w h =
      let ((l, r), e, k) = >>=-eq-ok (join_tables fuel lref.table rref.table s.equiv).1 _ h in
      let m = moved_out l s.subplans in
      let w' = moved_out-AllWell l s.subplans w in
      let (made, e1, k1) = >>=-eq-ok (joined_two lref op rref l r s.subplans) _ k in
      let (plan, e2, k2) =
        >>=-eq-ok (join_two lref op rref (subplan l s.subplans) (subplan r m)) _ e1 in
      subst (λ (t : Planning). AllWell t.subplans) (ok-injective k1)
        (subst AllWell (ok-injective k2) (
          insert-AllWell l (some plan) (moved_out r m) (moved_out-AllWell r m w') (
            join_two-IsWellFormed lref op rref (subplan l s.subplans) (subplan r m) plan (w l)
              (w' r) e2)))
  process_join_node-AllWell fuel (join_subplan lref op sub) s t w h =
      let (l, e, k) = >>=-eq-ok (get_equiv fuel lref.table s.equiv).1 _ h in
      let (r, e1, k1) = >>=-eq-ok (generate_sub sub) _ k in
      let (made, e2, k2) = >>=-eq-ok (joined_first lref op l r s.subplans) _ k1 in
      let (plan, e3, k3) = >>=-eq-ok (join_first lref op (subplan l s.subplans) r) _ e2 in
      subst (λ (t : Planning). AllWell t.subplans) (ok-injective k2)
        (subst AllWell (ok-injective k3) (
          insert-AllWell l (some plan) (moved_out l s.subplans) (moved_out-AllWell l s.subplans w) (
            join_first-IsWellFormed lref op (subplan l s.subplans) r plan (w l) (sub_well sub r e1)
              e3)))

  process_join_nodes-AllWell :
      (fuel : ℕ) (joins : List (JoinNode Sub)) (s t : Planning)
      → AllWell s.subplans
      → process_join_nodes sort generate_sub fuel joins s ≡ ok t
      → AllWell t.subplans
  unfolding process_join_nodes
  process_join_nodes-AllWell fuel [] s t w h =
      subst (λ (t : Planning). AllWell t.subplans) (ok-injective h) w
  process_join_nodes-AllWell fuel (node ∷ joins) s t w h =
      let (s', e, k) = >>=-eq-ok (process_join_node sort generate_sub fuel node s) _ h in
      process_join_nodes-AllWell fuel joins s' t (process_join_node-AllWell fuel node s s' w e) k

  generate_with-IsWellFormed :
      (p : LogicalPlan Sub) (plan : Plan)
      → generate_with sort generate_sub p ≡ ok plan
      → IsWellFormed plan
  unfolding generate_with lookup
  generate_with-IsWellFormed p plan h =
      let fuel = suc (length p.joins) in
      let (scanned, e, k) = >>=-eq-ok (process_scan_nodes p.catalog p.scans _) _ h in
      let (filtered, e1, k1) = >>=-eq-ok (process_filter_nodes p.filters scanned) _ k in
      let (joined, e2, k2) =
        >>=-eq-ok (process_join_nodes sort generate_sub fuel p.joins filtered) _ k1 in
      let (found, e3, k3) = >>=-eq-ok (get_subplan_roots sort fuel joined.equiv) _ k2 in
      let (root, e4, k4) = >>=-eq-ok (single found) _ k3 in
      let (child, e5, k5) = >>=-eq-ok (or_fault (subplan root joined.subplans)) (finish p) k4 in
      finish-IsWellFormed p child plan
        (or_fault-IsWellFormed (subplan root joined.subplans) child
          (process_join_nodes-AllWell fuel p.joins filtered joined
            (process_filter_nodes-AllWell p.filters scanned filtered
              (process_scan_nodes-AllWell p.catalog p.scans _ scanned (λ table. tt) e) e1)
            e2 root)
          e5)
        k5

-- In every physical plan that is made of a logical plan, whatever calls built that and however deep its
-- subqueries are nested, each operator reads fields that its child has: the columns of a filter and of
-- an order exist, the two sides of a join have one type, each aggregate function applies to the type of
-- its field, and the output columns of projections and aggregates are those of the fields they read.
pub generate_physical_plan-IsWellFormed :
    (sort : List Bytes → List Bytes) (n : ℕ) (p : LogicalPlan (Nested n)) (plan : Plan)
    → generate_physical_plan sort n p ≡ ok plan
    → IsWellFormed plan
unfolding generate_physical_plan
generate_physical_plan-IsWellFormed sort zero p plan h =
    generate_with-IsWellFormed sort (λ sub. absurd sub) (λ sub. absurd sub) p plan h
generate_physical_plan-IsWellFormed sort (suc n) p plan h =
    generate_with-IsWellFormed sort (generate_physical_plan sort n)
      (generate_physical_plan-IsWellFormed sort n) p plan h
