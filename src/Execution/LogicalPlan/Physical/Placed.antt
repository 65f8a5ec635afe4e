-- ===== src/Execution/LogicalPlan/Physical/Placed.antt =====
-- Where the plan of a table is while plans are joined (komfydb/execution/logical_plan/logical_plan.cc).
use mathlib.Core.List.{Memᴰ}
use mathlib.Core.List.Memᴰ
use mathlib.Core.Path.{subst}
use komfy_db.Base.{
  same_or_other, ℕ, ◌≡◌, ◌≢◌, sym, ap, ◌∙◌, inl, inr, List, [], ◌∷◌, ◌++◌, Option, none, some,
  Bytes, bytes_eq,
}
use komfy_db.Base.Maps.{insert}
use komfy_db.Common.Op.{Op}
use komfy_db.Base.Status.{ok, or_fault, >>=-eq-ok, ok-injective}
use komfy_db.Execution.LogicalPlan.{ColumnRef, FilterNode}
use komfy_db.Execution.LogicalPlan.Equiv.{Leads}
use komfy_db.Execution.LogicalPlan.Equiv.Merge.{merged, merged_in, merged_out}
use komfy_db.Execution.LogicalPlan.Physical.{Plan, create_filter, join_two, join_first}
use komfy_db.Execution.LogicalPlan.Physical.Generate.{
  Planning, Subplans, subplan, moved_out, filter_table, process_filter_nodes, joined_two,
  joined_first,
}
use komfy_db.Execution.LogicalPlan.Physical.Scans.{
  scanned_aliases, subplan-written, subplan-other, or_fault-found, create_filter-scans,
  join_two-scans, join_first-scans,
}

-- The plan under a root of the map scans the table.
abbrev pub Under : Subplans → Bytes → Bytes → Type 0
Under m root y = (plan : Plan) × (subplan root m ≡ some plan) × Memᴰ y (scanned_aliases plan)

-- The table leads to a root whose plan scans it.
abbrev pub IsPlaced : ℕ → Planning → Bytes → Type 0
IsPlaced n s y = (root : Bytes) × Leads s.equiv n y root × Under s.subplans root y

-- A write to another root, and a write of a plan that scans the table.
pub Under-other :
    (table root y : Bytes) (o : Option Plan) (m : Subplans)
    → table ≢ root
    → Under m root y
    → Under (insert bytes_eq table o m) root y
Under-other table root y o m differs (plan, there, mem) =
    (plan, subplan-other table root o m differs ∙ there, mem)

pub Under-written :
    (root y : Bytes) (plan : Plan) (m : Subplans)
    → Memᴰ y (scanned_aliases plan)
    → Under (insert bytes_eq root (some plan) m) root y
Under-written root y plan m mem = (plan, subplan-written root (some plan) m, mem)

pub same_plan :
    (m : Subplans) (root y : Bytes) (plan : Plan)
    → subplan root m ≡ some plan
    → Under m root y
    → Memᴰ y (scanned_aliases plan)
same_plan m root y plan there (plan', there', mem) =
    let same : plan' ≡ plan = cc in subst (λ p. Memᴰ y (scanned_aliases p)) same mem

-- The tables of the left and the right side are in the plan of a join.
module _ (l r plan : Plan) (both : scanned_aliases plan ≡ scanned_aliases l ++ scanned_aliases r)
    (y : Bytes) where
  on_left : Memᴰ y (scanned_aliases l) → Memᴰ y (scanned_aliases plan)
  on_left m = subst (Memᴰ y) (sym both) (Memᴰ.append_left (scanned_aliases r) m)

  on_right : Memᴰ y (scanned_aliases r) → Memᴰ y (scanned_aliases plan)
  on_right m = subst (Memᴰ y) (sym both) (Memᴰ.append_right (scanned_aliases l) m)

-- What was scanned under a filter's table still is, and the others are left alone.
Under-filter :
    (node : FilterNode) (child plan : Plan) (m : Subplans) (root y : Bytes)
    → subplan (filter_table node) m ≡ some child
    → create_filter node child ≡ ok plan
    → Under m root y
    → Under
        (insert bytes_eq (filter_table node) (some plan) (moved_out (filter_table node) m))
        root
        y
Under-filter node child plan m root y there made u =
    let table = filter_table node in
    elim (same_or_other table root) [
      | inl same ↦
          subst (λ r. Under (insert bytes_eq table (some plan) (moved_out table m)) r y) same
            (Under-written table y plan (moved_out table m) (
              subst (Memᴰ y) (create_filter-scans node child plan made)
                (same_plan m root y child (ap (λ r. subplan r m) (sym same) ∙ there) u)))
      | inr differs ↦
          Under-other table root y (some plan) (moved_out table m) differs
            (Under-other table root y none m differs u)
    ]

pub process_filter_nodes-IsPlaced :
    (filters : List FilterNode) (s t : Planning) (n : ℕ) (y : Bytes)
    → IsPlaced n s y
    → process_filter_nodes filters s ≡ ok t
    → IsPlaced n t y
unfolding process_filter_nodes
process_filter_nodes-IsPlaced [] s t n y placed h =
    subst (λ (t : Planning). IsPlaced n t y) (ok-injective h) placed
process_filter_nodes-IsPlaced (node ∷ filters) s t n y (root, leads, u) h =
    let (child, e, k) = >>=-eq-ok (or_fault (subplan (filter_table node) s.subplans)) _ h in
    let (plan, e', k') = >>=-eq-ok (create_filter node child) _ k in
    process_filter_nodes-IsPlaced filters _ t n y
      (
        root,
        leads,
        Under-filter node child plan s.subplans root y
            (or_fault-found (subplan (filter_table node) s.subplans) child e) e' u,
      )
      k'

-- The plans after a join of the trees of `a` and `b`.
pub Under-joined_two :
    (lref : ColumnRef) (op : Op) (rref : ColumnRef) (a b : Bytes) (m m' : Subplans) (root y : Bytes)
    → joined_two lref op rref a b m ≡ ok m'
    → Under m root y
    → Under m' (merged a b root) y
unfolding joined_two
Under-joined_two lref op rref a b m m' root y h u =
    let moved = moved_out a m in
    let (plan, e, k) = >>=-eq-ok (join_two lref op rref (subplan a m) (subplan b moved)) _ h in
    let (l, r, at_a, at_b, both) =
      join_two-scans lref op rref (subplan a m) (subplan b moved) plan e in
    let end = moved_out b moved in
    let apart : a ≢ b = λ p.
      (let gone : ◌≡◌ {A = Option Plan} (some r) none =
          sym at_b ∙ ap (λ z. subplan z moved) (sym p) ∙ subplan-written a none m in
        cc) in
    subst (λ m'. Under m' (merged a b root) y) (ok-injective k)
      (elim (same_or_other root b) [
        | inl p ↦
            subst (λ z. Under (insert bytes_eq a (some plan) end) z y) (merged_in a b root p)
              (Under-written a y plan end (
                on_right l r plan both y (
                  same_plan m b y r (sym (subplan-other a b none m apart) ∙ at_b)
                    (subst (λ z. Under m z y) p u))))
        | inr other ↦
            subst (λ z. Under (insert bytes_eq a (some plan) end) z y) (merged_out a b root other)
              (elim (same_or_other a root) [
                | inl p ↦
                    subst (λ z. Under (insert bytes_eq a (some plan) end) z y) p
                      (Under-written a y plan end (
                        on_left l r plan both y
                          (same_plan m a y l at_a (subst (λ z. Under m z y) (sym p) u))))
                | inr differs ↦ Under-other a root y (some plan) end differs (
                    Under-other b root y none moved (λ p. other (sym p))
                      (Under-other a root y none m differs u))
              ])
      ])

pub Under-joined_first :
    (lref : ColumnRef) (op : Op) (a : Bytes) (r : Plan) (m m' : Subplans) (root y : Bytes)
    → joined_first lref op a r m ≡ ok m'
    → Under m root y
    → Under m' root y
unfolding joined_first
Under-joined_first lref op a r m m' root y h u =
    let (plan, e, k) = >>=-eq-ok (join_first lref op (subplan a m) r) _ h in
    let (l, at_a, both) = join_first-scans lref op (subplan a m) r plan e in
    subst (λ m'. Under m' root y) (ok-injective k)
      (elim (same_or_other a root) [
        | inl p ↦
            subst (λ z. Under (insert bytes_eq a (some plan) (moved_out a m)) z y) p
              (Under-written a y plan (moved_out a m) (
                on_left l r plan both y
                  (same_plan m a y l at_a (subst (λ z. Under m z y) (sym p) u))))
        | inr differs ↦
            Under-other a root y (some plan) (moved_out a m) differs
              (Under-other a root y none m differs u)
      ])
