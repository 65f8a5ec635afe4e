-- ===== src/Execution/LogicalPlan/Physical/Ending.antt =====
-- The planner ends, and needs no more fuel than it is given
-- (komfydb/execution/logical_plan/logical_plan.cc).
use mathlib.Core.Path.{subst}
use komfy_db.Base.{
  ℕ, zero, suc, ◌+◌, ◌<◌, ◌≡◌, ◌≢◌, refl, sym, ap, ◌∙◌, List, [], ◌∷◌, length, Bytes, arith, All,
  All-imp,
}
use komfy_db.Base.Ends.{Ends, Returns, >>=-Ends, >>=-Returns, or_fault-Returns, no_fuel-Returns}
use komfy_db.Base.Status.{StatusOr, no_fuel, or_fault}
use komfy_db.Storage.Catalog.{Catalog}
use komfy_db.Execution.LogicalPlan.{
  LogicalPlan, FilterNode, JoinNode, join_columns, join_subplan, ScanNode,
}
use komfy_db.Execution.LogicalPlan.Equiv.{Equiv, scan_equiv}
use komfy_db.Execution.LogicalPlan.Equiv.Compression.{get_equiv-Leads}
use komfy_db.Execution.LogicalPlan.Equiv.Joins.{
  Reaches, Reaches-eq, Leads-suc, TablesReach, tables_kept, TablesScanned, tables_scanned,
}
use komfy_db.Execution.LogicalPlan.Equiv.Merge.{merged, join_tables_lem}
use komfy_db.Execution.LogicalPlan.Equiv.Roots.{
  names, get_equiv-names, join_tables-names, roots-ends, scan_equiv-roots,
}
use komfy_db.Execution.LogicalPlan.Physical.{Plan, create_scan, create_filter}
use komfy_db.Execution.LogicalPlan.Physical.Finishing.{finish-Returns}
use komfy_db.Execution.LogicalPlan.Physical.Generate.{
  Planning, subplan, moved_out, process_scan_nodes, filter_table, process_filter_nodes, joined_two,
  joined_first, process_join_node, process_join_nodes, get_subplan_roots, single, generate_with,
  Nested, generate_physical_plan,
}
use komfy_db.Execution.LogicalPlan.Physical.Returning.{
  create_scan-Returns, create_filter-Returns, join_two-Returns, join_first-Returns,
}

-- The names stay, and what reached a root does so in at most one step more.
abbrev Kept : ℕ → Equiv → Equiv → Type 0
Kept n e e' = (names e' ≡ names e) × ((y : Bytes) → Reaches e n y → Reaches e' (suc n) y)

pub process_scan_nodes-Ends :
    (c : Catalog) (scans : List ScanNode) (s : Planning)
    → Ends (λ (t : Planning). t.equiv ≡ scan_equiv scans s.equiv) (process_scan_nodes c scans s)
unfolding process_scan_nodes scan_equiv
process_scan_nodes-Ends c [] s = refl
process_scan_nodes-Ends c (scan ∷ scans) s =
    >>=-Ends _ _ (create_scan c scan) _ (create_scan-Returns c scan)
      λ plan _. process_scan_nodes-Ends c scans _

pub process_filter_nodes-Ends :
    (filters : List FilterNode) (s : Planning)
    → Ends (λ (t : Planning). t.equiv ≡ s.equiv) (process_filter_nodes filters s)
unfolding process_filter_nodes
process_filter_nodes-Ends [] s = refl
process_filter_nodes-Ends (node ∷ filters) s =
    >>=-Ends _ _ (or_fault (subplan (filter_table node) s.subplans)) _
      (or_fault-Returns (subplan (filter_table node) s.subplans))
      λ child _.
        >>=-Ends _ _ (create_filter node child) _ (create_filter-Returns node child)
          λ plan _. process_filter_nodes-Ends filters _

single-Returns : (rs : List Bytes) → Returns (single rs)
single-Returns [] = tt
single-Returns (r ∷ []) = tt
single-Returns (r ∷ other ∷ rs) = tt

get_subplan_roots-Returns :
    (sort : List Bytes → List Bytes) (fuel n : ℕ) (e : Equiv)
    → All (Reaches e n) (names e)
    → n < fuel
    → Returns (get_subplan_roots sort fuel e)
unfolding get_subplan_roots
get_subplan_roots-Returns sort fuel n e h lt =
    let (e', rs, same, gives) = roots-ends fuel n (names e) e h lt in rw same tt

module _ (sort : List Bytes → List Bytes) {Sub : Type 0} (generate_sub : Sub → StatusOr Plan) where
  -- The subquery of the join, if it has one, gives a result.
  abbrev SubReturns : JoinNode Sub → Type 0
  SubReturns (join_columns lref op rref) = Unit
  SubReturns (join_subplan lref op sub) = Returns (generate_sub sub)

  process_join_node-Ends :
      (fuel n : ℕ) (node : JoinNode Sub) (s : Planning)
      → TablesReach s.equiv n node
      → SubReturns node
      → n < fuel
      → Ends
          (λ (t : Planning). Kept n s.equiv t.equiv)
          (process_join_node sort generate_sub fuel node s)
  unfolding process_join_node joined_two joined_first
  process_join_node-Ends fuel n (join_columns lref op rref) s ((a, la), (b, lb)) u lt =
      let e = s.equiv in
      let (e', same, keeps) = join_tables_lem fuel e lref.table rref.table a b n n la lb lt lt in
      rw same (
        >>=-Ends _ _ (joined_two lref op rref a b s.subplans) _
          (>>=-Returns _ _
            (join_two-Returns lref op rref (subplan a s.subplans)
              (subplan b (moved_out a s.subplans)))
            λ plan. tt)
          λ m _. (
            sym (ap (λ p. names p.0) same)
                ∙ join_tables-names fuel e lref.table rref.table a b n n la lb lt lt,
            λ y g. (merged a b g.0, keeps n y g.0 g.1),
          ))
  process_join_node-Ends fuel n (join_subplan lref op sub) s (r, l) u lt =
      let e = s.equiv in
      let (e', same, keeps) = get_equiv-Leads n fuel e lref.table r l lt in
      rw same (
        >>=-Ends _ _ (generate_sub sub) _ u λ r_child _.
          >>=-Ends _ _ (joined_first lref op r r_child s.subplans) _
            (>>=-Returns _ _ (join_first-Returns lref op (subplan r s.subplans) r_child) λ plan. tt)
            λ m _. (
              sym (ap (λ p. names p.0) same) ∙ get_equiv-names n fuel e lref.table r l lt,
              λ y g. (g.0, Leads-suc (keeps n y g.0 g.1)),
            ))

  process_join_nodes-Ends :
      (fuel n : ℕ) (joins : List (JoinNode Sub)) (s : Planning)
      → All (Reaches s.equiv n) (names s.equiv)
      → All (TablesReach s.equiv n) joins
      → All SubReturns joins
      → n + length joins < fuel
      → Ends
          (λ (t : Planning). All (Reaches t.equiv (n + length joins)) (names t.equiv))
          (process_join_nodes sort generate_sub fuel joins s)
  unfolding process_join_nodes
  process_join_nodes-Ends fuel n [] s h hs us lt =
      All-imp _ _ (names s.equiv) (λ y g. Reaches-eq s.equiv y (omega arith) g) h
  process_join_nodes-Ends fuel n (node ∷ joins) s h (hn, hs) (u, us) lt =
      >>=-Ends (λ (t : Planning). Kept n s.equiv t.equiv) _
        (process_join_node sort generate_sub fuel node s) _
        (process_join_node-Ends fuel n node s hn u (omega arith))
        λ t kept.
          subst
            (λ k.
              Ends (λ (t : Planning). All (Reaches t.equiv k) (names t.equiv))
                (process_join_nodes sort generate_sub fuel joins t))
            (omega arith)
            (process_join_nodes-Ends fuel (suc n) joins t
              (subst (All (Reaches t.equiv (suc n))) (sym kept.0)
                (All-imp _ _ (names s.equiv) kept.1 h))
              (tables_kept joins kept.1 hs) us (omega arith))

  generate_with-Returns :
      (p : LogicalPlan Sub)
      → All (TablesScanned p.scans) p.joins
      → All SubReturns p.joins
      → Returns (generate_with sort generate_sub p)
  unfolding generate_with
  generate_with-Returns p h us =
      let fuel = suc (length p.joins) in
      >>=-Ends (λ (t : Planning). t.equiv ≡ scan_equiv p.scans []) _
        (process_scan_nodes p.catalog p.scans _) _ (process_scan_nodes-Ends p.catalog p.scans _)
        λ scanned same.
          >>=-Ends (λ (t : Planning). t.equiv ≡ scanned.equiv) _
            (process_filter_nodes p.filters scanned) _ (process_filter_nodes-Ends p.filters scanned)
            λ filtered same'.
              let start = sym (same' ∙ same) in
              >>=-Ends
                (λ (t : Planning). All (Reaches t.equiv (0 + length p.joins)) (names t.equiv)) _
                (process_join_nodes sort generate_sub fuel p.joins filtered) _
                (process_join_nodes-Ends fuel 0 p.joins filtered
                  (subst (λ e. All (Reaches e 0) (names e)) start (scan_equiv-roots p.scans))
                  (subst (λ e. All (TablesReach e 0) p.joins) start
                    (All-imp _ _ p.joins (tables_scanned p.scans) h))
                  us (omega arith))
                λ joined reached.
                  >>=-Returns (get_subplan_roots sort fuel joined.equiv) _
                    (get_subplan_roots-Returns sort fuel (0 + length p.joins) joined.equiv reached
                      (omega arith))
                    λ found. >>=-Returns (single found) _ (single-Returns found) λ root.
                      >>=-Returns (or_fault (subplan root joined.subplans)) _
                        (or_fault-Returns (subplan root joined.subplans))
                        λ child. finish-Returns p child

abbrev SubScoped : {Sub : Type 0} → (Sub → Type 0) → JoinNode Sub → Type 0
SubScoped P (join_columns lref op rref) = Unit
SubScoped P (join_subplan lref op sub) = P sub

subs_return :
    (sort : List Bytes → List Bytes) {Sub : Type 0} (generate_sub : Sub → StatusOr Plan)
    (P : Sub → Type 0)
    → ((sub : Sub) → P sub → Returns (generate_sub sub))
    → (node : JoinNode Sub) → SubScoped P node
    → SubReturns sort generate_sub node
subs_return sort generate_sub P f (join_columns lref op rref) h = tt
subs_return sort generate_sub P f (join_subplan lref op sub) h = f sub h

-- Every table that a join names, in the plan and in the plans of its subqueries, is the alias of a scan
-- of the same plan.
unfoldable pub IsScoped : (n : ℕ) → LogicalPlan (Nested n) → Type 0
IsScoped zero p = All (TablesScanned p.scans) p.joins
IsScoped (suc n) p = All (TablesScanned p.scans) p.joins × All (SubScoped (IsScoped n)) p.joins

generate_physical_plan-Returns :
    (sort : List Bytes → List Bytes) (n : ℕ) (p : LogicalPlan (Nested n))
    → IsScoped n p
    → Returns (generate_physical_plan sort n p)
unfolding generate_physical_plan IsScoped
generate_physical_plan-Returns sort zero p h =
    generate_with-Returns sort (λ sub. absurd sub) p h
      (All-imp (TablesScanned p.scans) _ p.joins (λ node _. without node) h)
  where
    without : (node : JoinNode ⊥) → SubReturns sort (λ sub. absurd sub) node
    without (join_columns lref op rref) = tt
    without (join_subplan lref op sub) = absurd sub
generate_physical_plan-Returns sort (suc n) p h =
    generate_with-Returns sort (generate_physical_plan sort n) p h.0 (
      All-imp _ _ p.joins
        (subs_return sort (generate_physical_plan sort n) (IsScoped n)
          (generate_physical_plan-Returns sort n))
        h.1)

-- Where every table that a join names, also in the subqueries, is the alias of a scan of its plan, the
-- planner is never cut off: the calls of `GetEquiv` all end, and so do the loops around them.
pub generate_physical_plan-ends :
    (sort : List Bytes → List Bytes) (n : ℕ) (p : LogicalPlan (Nested n))
    → IsScoped n p
    → generate_physical_plan sort n p ≢ no_fuel
generate_physical_plan-ends sort n p h =
    no_fuel-Returns (generate_physical_plan sort n p) (generate_physical_plan-Returns sort n p h)
