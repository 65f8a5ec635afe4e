-- ===== src/Execution/LogicalPlan/Physical/Complete.antt =====
-- No table of a query is lost in its physical plan (komfydb/execution/logical_plan/logical_plan.cc).
use mathlib.Core.List.{Memᴰ}
use mathlib.Core.Path.{subst}
use komfy_db.Base.{
  ℕ, zero, suc, ◌+◌, ◌<◌, ◌≡◌, refl, sym, ap, ◌∙◌, List, [], ◌∷◌, map, length, Bytes, arith, All,
  All-imp,
}
use komfy_db.Base.Ends.{Ends-ok}
use komfy_db.Base.Status.{StatusOr, ok, ◌>>=◌, or_fault, >>=-eq-ok, ok-injective}
use komfy_db.Storage.Catalog.{Catalog}
use komfy_db.Execution.LogicalPlan.{
  LogicalPlan, FilterNode, JoinNode, join_columns, join_subplan, ScanNode,
}
use komfy_db.Execution.LogicalPlan.Equiv.{scan_equiv}
use komfy_db.Execution.LogicalPlan.Equiv.Compression.{get_equiv-Leads}
use komfy_db.Execution.LogicalPlan.Equiv.Joins.{Reaches, TablesScanned, scan_equiv-Leads, Leads-suc}
use komfy_db.Execution.LogicalPlan.Equiv.Merge.{merged, join_tables_lem}
use komfy_db.Execution.LogicalPlan.Equiv.Roots.{
  names, get_equiv-names, join_tables-names, roots-ends, scan_equiv-All, All-Memᴰ, names-Memᴰ,
}
use komfy_db.Execution.LogicalPlan.Physical.{Plan}
use komfy_db.Execution.LogicalPlan.Physical.Ending.{
  process_scan_nodes-Ends, process_filter_nodes-Ends,
}
use komfy_db.Execution.LogicalPlan.Physical.Generate.{
  Planning, subplan, process_scan_nodes, process_filter_nodes, joined_two, joined_first,
  process_join_node, process_join_nodes, get_subplan_roots, single, finish, generate_with, Nested,
  generate_physical_plan,
}
use komfy_db.Execution.LogicalPlan.Physical.Placed.{
  Under, IsPlaced, same_plan, Under-joined_two, Under-joined_first, process_filter_nodes-IsPlaced,
}
use komfy_db.Execution.LogicalPlan.Physical.Scans.{scanned_aliases, or_fault-found, finish-scans}
use komfy_db.Execution.LogicalPlan.Physical.Started.{
  aliases, process_scan_nodes-IsPlaced, unique-Memᴰ, single-only,
}

module _ (sort : List Bytes → List Bytes) {Sub : Type 0} (generate_sub : Sub → StatusOr Plan)
    (scans : List ScanNode) where
  -- A join keeps the names, and moves each table of the scans to a root whose plan scans it.
  abbrev Moves : ℕ → Planning → Planning → Type 0
  Moves n s t =
      (names t.equiv ≡ names s.equiv) × ((y : Bytes) → IsPlaced n s y → IsPlaced (suc n) t y)

  process_join_node-Moves :
      (fuel n : ℕ) (node : JoinNode Sub) (s t : Planning)
      → ((y : Bytes) → Memᴰ y (aliases scans) → IsPlaced n s y)
      → TablesScanned scans node
      → n < fuel
      → process_join_node sort generate_sub fuel node s ≡ ok t
      → Moves n s t
  unfolding process_join_node
  process_join_node-Moves fuel n (join_columns lref op rref) s t placed (hl, hr) lt h =
      let (a, la, ua) = placed lref.table hl in
      let (b, lb, ub) = placed rref.table hr in
      let (e', same, keeps) =
        join_tables_lem fuel s.equiv lref.table rref.table a b n n la lb lt lt in
      let (m, e, k) =
        >>=-eq-ok (joined_two lref op rref a b s.subplans)
          (λ m. ok (record { equiv = e'; subplans = m })) (rw same at h) in
      subst (Moves n s) (ok-injective k) (
        sym (ap (λ p. names p.0) same)
            ∙ join_tables-names fuel s.equiv lref.table rref.table a b n n la lb lt lt,
        λ y (root, leads, u). (
          merged a b root,
          keeps n y root leads,
          Under-joined_two lref op rref a b s.subplans m root y e u,
        ),
      )
  process_join_node-Moves fuel n (join_subplan lref op sub) s t placed hl lt h =
      let (a, la, ua) = placed lref.table hl in
      let (e', same, keeps) = get_equiv-Leads n fuel s.equiv lref.table a la lt in
      let (r, e, k) =
        >>=-eq-ok (generate_sub sub)
          (λ r.
            joined_first lref op a r s.subplans >>= λ m. ok (record { equiv = e'; subplans = m }))
          (rw same at h) in
      let (m, e1, k1) = >>=-eq-ok (joined_first lref op a r s.subplans) _ k in
      subst (Moves n s) (ok-injective k1) (
        sym (ap (λ p. names p.0) same) ∙ get_equiv-names n fuel s.equiv lref.table a la lt,
        λ y (root, leads, u). (
          root,
          Leads-suc (keeps n y root leads),
          Under-joined_first lref op a r s.subplans m root y e1 u,
        ),
      )

  process_join_nodes-IsPlaced :
      (fuel n : ℕ) (joins : List (JoinNode Sub)) (s t : Planning)
      → ((y : Bytes) → Memᴰ y (aliases scans) → IsPlaced n s y)
      → All (TablesScanned scans) joins
      → n + length joins < fuel
      → process_join_nodes sort generate_sub fuel joins s ≡ ok t
      → (names t.equiv ≡ names s.equiv)
        × ((y : Bytes) → Memᴰ y (aliases scans) → IsPlaced (n + length joins) t y)
  unfolding process_join_nodes
  process_join_nodes-IsPlaced fuel n [] s t placed hs lt h =
      let same : n ≡ n + 0 = omega arith in
      subst
        (λ (t : Planning).
          (names t.equiv ≡ names s.equiv)
          × ((y : Bytes) → Memᴰ y (aliases scans) → IsPlaced (n + 0) t y))
        (ok-injective h) (refl, λ y m. subst (λ k. IsPlaced k s y) same (placed y m))
  process_join_nodes-IsPlaced fuel n (node ∷ joins) s t placed (hn, hs) lt h =
      let (s', e, k) = >>=-eq-ok (process_join_node sort generate_sub fuel node s) _ h in
      let (kept, moves) = process_join_node-Moves fuel n node s s' placed hn (omega arith) e in
      let (kept', placed') =
        process_join_nodes-IsPlaced fuel (suc n) joins s' t (λ y m. moves y (placed y m)) hs
          (omega arith) k in
      let same : suc n + length joins ≡ n + suc (length joins) = omega arith in
      (kept' ∙ kept, λ y m. subst (λ k. IsPlaced k t y) same (placed' y m))

  -- The one root that is left is the root of every table of the scans.
  get_subplan_roots-only :
      ((xs : List Bytes) (x : Bytes) → Memᴰ x xs → Memᴰ x (sort xs))
      → (fuel n : ℕ) (s : Planning) (found : List Bytes) (root y : Bytes)
      → All (Reaches s.equiv n) (names s.equiv)
      → n < fuel
      → get_subplan_roots sort fuel s.equiv ≡ ok found
      → single found ≡ ok root
      → Memᴰ y (names s.equiv)
      → IsPlaced n s y
      → Under s.subplans root y
  unfolding get_subplan_roots
  get_subplan_roots-only sorts fuel n s found root y reach lt h one named (r, leads, u) =
      let (e', rs, same, gives) = roots-ends fuel n (names s.equiv) s.equiv reach lt in
      let listed = ok-injective (rw same at h) in
      let mem : Memᴰ r found =
        subst (Memᴰ r) listed (unique-Memᴰ (sort rs) r (sorts rs r (gives y r named leads))) in
      subst (λ z. Under s.subplans z y) (single-only found root r one mem) u

  -- Before the joins every alias is a root, whose plan scans it, and there are no other names.
  filtered-IsPlaced :
      (c : Catalog) (filters : List FilterNode) (scanned filtered : Planning)
      → process_scan_nodes c scans (record { equiv = []; subplans = [] }) ≡ ok scanned
      → process_filter_nodes filters scanned ≡ ok filtered
      → (names filtered.equiv ≡ names (scan_equiv scans []))
        × ((y : Bytes) → Memᴰ y (aliases scans) → IsPlaced 0 filtered y)
  filtered-IsPlaced c filters scanned filtered e e1 = (
    ap names (
        Ends-ok (λ (t : Planning). t.equiv ≡ scanned.equiv)
          (process_filter_nodes-Ends filters scanned) e1
        ∙ Ends-ok (λ (t : Planning). t.equiv ≡ scan_equiv scans [])
            (process_scan_nodes-Ends c scans (record { equiv = []; subplans = [] })) e),
    λ y m.
        process_filter_nodes-IsPlaced filters scanned filtered 0 y
          (process_scan_nodes-IsPlaced c scans scanned y e m) e1,
  )

  generate_with-scans :
      ((xs : List Bytes) (x : Bytes) → Memᴰ x xs → Memᴰ x (sort xs))
      → (p : LogicalPlan Sub) (plan : Plan) (y : Bytes) → p.scans ≡ scans
      → All (TablesScanned scans) p.joins
      → generate_with sort generate_sub p ≡ ok plan
      → Memᴰ y (aliases scans)
      → Memᴰ y (scanned_aliases plan)
  unfolding generate_with
  generate_with-scans sorts p plan y same_scans hs h m =
      let fuel = suc (length p.joins) in
      let start : Planning = record { equiv = []; subplans = [] } in
      let (scanned, e, k) = >>=-eq-ok (process_scan_nodes p.catalog p.scans start) _ h in
      let (filtered, e1, k1) = >>=-eq-ok (process_filter_nodes p.filters scanned) _ k in
      let (joined, e2, k2) =
        >>=-eq-ok (process_join_nodes sort generate_sub fuel p.joins filtered) _ k1 in
      let (found, e3, k3) = >>=-eq-ok (get_subplan_roots sort fuel joined.equiv) _ k2 in
      let (root, e4, k4) = >>=-eq-ok (single found) _ k3 in
      let (child, e5, k5) = >>=-eq-ok (or_fault (subplan root joined.subplans)) (finish p) k4 in
      let e' : process_scan_nodes p.catalog scans start ≡ ok scanned =
        subst (λ z. process_scan_nodes p.catalog z start ≡ ok scanned) same_scans e in
      let (before, start_placed) = filtered-IsPlaced p.catalog p.filters scanned filtered e' e1 in
      let (kept, placed) =
        process_join_nodes-IsPlaced fuel 0 p.joins filtered joined start_placed hs (omega arith)
          e2 in
      let named : names joined.equiv ≡ names (scan_equiv scans []) = kept ∙ before in
      let of_scans : All (λ y. Memᴰ y (aliases scans)) (names joined.equiv) =
        subst (All (λ y. Memᴰ y (aliases scans))) (sym named)
          (scan_equiv-All (λ y. Memᴰ y (aliases scans)) scans [] tt (All-Memᴰ (aliases scans))) in
      let here =
        get_subplan_roots-only sorts fuel (0 + length p.joins) joined found root y
          (All-imp _ _ (names joined.equiv) (λ y m. ((placed y m).0, (placed y m).1)) of_scans)
          (omega arith) e3 e4
          (subst (Memᴰ y) (sym named)
            (names-Memᴰ y y (scan_equiv scans []) (scan_equiv-Leads scans [] y m)))
          (placed y m) in
      subst (Memᴰ y) (finish-scans p child plan k5) (
        same_plan joined.subplans root y child
          (or_fault-found (subplan root joined.subplans) child e5) here)

-- Where every table that a join names is the alias of a scan, and sorting loses no element, a physical
-- plan that is made of a logical plan scans every table of the query, under its alias: none is left
-- behind in another tree.
pub generate_physical_plan-scans :
    (sort : List Bytes → List Bytes)
    → ((xs : List Bytes) (x : Bytes) → Memᴰ x xs → Memᴰ x (sort xs))
    → (n : ℕ) (p : LogicalPlan (Nested n)) (plan : Plan) (y : Bytes)
    → All (TablesScanned p.scans) p.joins
    → generate_physical_plan sort n p ≡ ok plan
    → Memᴰ y (map (λ scan. scan.alias) p.scans)
    → Memᴰ y (scanned_aliases plan)
unfolding generate_physical_plan
generate_physical_plan-scans sort sorts zero p plan y hs h m =
    generate_with-scans sort (λ sub. absurd sub) p.scans sorts p plan y refl hs h m
generate_physical_plan-scans sort sorts (suc n) p plan y hs h m =
    generate_with-scans sort (generate_physical_plan sort n) p.scans sorts p plan y refl hs h m
