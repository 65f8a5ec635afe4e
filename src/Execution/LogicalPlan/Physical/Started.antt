-- ===== src/Execution/LogicalPlan/Physical/Started.antt =====
-- Where the plans of tables are after the scans, and the roots that are left (komfydb/execution/logical_plan/logical_plan.cc).
use mathlib.Core.List.{Memᴰ}
use mathlib.Core.List.Memᴰ
use mathlib.Core.Path.{subst}
use komfy_db.Base.{
  same_or_other, ◌≡◌, ◌≢◌, ◌⊎◌, refl, sym, ◌∙◌, inl, inr, List, [], ◌∷◌, map, some, Bytes, bytes_eq,
  bytes_eq_iff, Bool-cases,
}
use komfy_db.Base.Ends.{Ends-ok}
use komfy_db.Base.Maps.{insert}
use komfy_db.Base.Status.{ok, >>=-eq-ok, ok-injective}
use komfy_db.Storage.Catalog.{Catalog, get_table_name, get_tuple_desc}
use komfy_db.Execution.LogicalPlan.{ScanNode}
use komfy_db.Execution.LogicalPlan.Equiv.{scan_equiv, Leads, at_root}
use komfy_db.Execution.LogicalPlan.Equiv.Joins.{scan_equiv-Leads}
use komfy_db.Execution.LogicalPlan.Physical.{Plan, create_scan}
use komfy_db.Execution.LogicalPlan.Physical.Ending.{process_scan_nodes-Ends}
use komfy_db.Execution.LogicalPlan.Physical.Generate.{
  Planning, process_scan_nodes, unique_from, unique, single,
}
use komfy_db.Execution.LogicalPlan.Physical.Placed.{Under, IsPlaced, Under-other, Under-written}
use komfy_db.Execution.LogicalPlan.Physical.Scans.{scanned_aliases}

abbrev pub aliases : List ScanNode → List Bytes
aliases scans = map (λ scan. scan.alias) scans

create_scan-scans :
    (c : Catalog) (scan : ScanNode) (plan : Plan)
    → create_scan c scan ≡ ok plan
    → Memᴰ scan.alias (scanned_aliases plan)
unfolding create_scan scanned_aliases
create_scan-scans c scan plan h =
    let (name, e, k) = >>=-eq-ok (get_table_name c scan.id) _ h in
    let (td, e', k') = >>=-eq-ok (get_tuple_desc c scan.id) _ k in
    subst (λ p. Memᴰ scan.alias (scanned_aliases p)) (ok-injective k') (Memᴰ.head refl)

process_scan_nodes-Under :
    (c : Catalog) (scans : List ScanNode) (s t : Planning) (y : Bytes)
    → Memᴰ y (aliases scans) ⊎ Under s.subplans y y
    → process_scan_nodes c scans s ≡ ok t
    → Under t.subplans y y
unfolding process_scan_nodes
process_scan_nodes-Under c [] s t y (inl m) h = absurd (Memᴰ.not-nil m)
process_scan_nodes-Under c [] s t y (inr u) h =
    subst (λ (t : Planning). Under t.subplans y y) (ok-injective h) u
process_scan_nodes-Under c (scan ∷ scans) s t y held h =
    let (plan, e, k) = >>=-eq-ok (create_scan c scan) _ h in
    process_scan_nodes-Under c scans _ t y
      (elim (same_or_other scan.alias y) [
        | inl p ↦ inr (
            subst (λ z. Under (insert bytes_eq scan.alias (some plan) s.subplans) z z) p
              (Under-written scan.alias scan.alias plan s.subplans
                (create_scan-scans c scan plan e)))
        | inr differs ↦ still plan held differs
      ])
      k
  where
    still :
        (plan : Plan)
        → Memᴰ y (aliases (scan ∷ scans)) ⊎ Under s.subplans y y
        → scan.alias ≢ y
        → Memᴰ y (aliases scans) ⊎ Under (insert bytes_eq scan.alias (some plan) s.subplans) y y
    still plan (inl (Memᴰ.head p)) differs = absurd (differs (sym p))
    still plan (inl (Memᴰ.tail m)) differs = inl m
    still plan (inr u) differs = inr (Under-other scan.alias y y (some plan) s.subplans differs u)

-- After the scans every alias is its own root, and its plan scans it.
pub process_scan_nodes-IsPlaced :
    (c : Catalog) (scans : List ScanNode) (t : Planning) (y : Bytes)
    → process_scan_nodes c scans (record { equiv = []; subplans = [] }) ≡ ok t
    → Memᴰ y (aliases scans)
    → IsPlaced 0 t y
process_scan_nodes-IsPlaced c scans t y h m =
    let same =
      Ends-ok (λ (t : Planning). t.equiv ≡ scan_equiv scans [])
        (process_scan_nodes-Ends c scans (record { equiv = []; subplans = [] })) h in
    (
      y,
      subst (λ e. Leads e 0 y y) (sym same) (at_root (scan_equiv-Leads scans [] y m)),
      process_scan_nodes-Under c scans _ t y (inl m) h,
    )

unique_from-Memᴰ :
    (x : Bytes) (ys : List Bytes) (z : Bytes) → Memᴰ z (x ∷ ys) → Memᴰ z (unique_from x ys)
unfolding unique_from
unique_from-Memᴰ x [] z m = m
unique_from-Memᴰ x (y ∷ ys) z m = elim (Bool-cases (bytes_eq x y)) [
  | inl e ↦ rw e (unique_from-Memᴰ x ys z (merge ((bytes_eq_iff x y).0 e) m))
  | inr e ↦ rw e (apart (unique_from-Memᴰ y ys z) m)
]
  where
    merge : x ≡ y → Memᴰ z (x ∷ y ∷ ys) → Memᴰ z (x ∷ ys)
    merge p (Memᴰ.head q) = Memᴰ.head q
    merge p (Memᴰ.tail (Memᴰ.head q)) = Memᴰ.head (q ∙ sym p)
    merge p (Memᴰ.tail (Memᴰ.tail m)) = Memᴰ.tail m

    apart :
        (Memᴰ z (y ∷ ys) → Memᴰ z (unique_from y ys))
        → Memᴰ z (x ∷ y ∷ ys)
        → Memᴰ z (x ∷ unique_from y ys)
    apart later (Memᴰ.head q) = Memᴰ.head q
    apart later (Memᴰ.tail m) = Memᴰ.tail (later m)

pub unique-Memᴰ : (xs : List Bytes) (z : Bytes) → Memᴰ z xs → Memᴰ z (unique xs)
unfolding unique
unique-Memᴰ [] z m = m
unique-Memᴰ (x ∷ xs) z m = unique_from-Memᴰ x xs z m

-- The one root that is left is every root.
pub single-only : (xs : List Bytes) (root z : Bytes) → single xs ≡ ok root → Memᴰ z xs → z ≡ root
single-only [] root z h m = absurd cc
single-only (x ∷ []) root z h (Memᴰ.head p) = p ∙ ok-injective h
single-only (x ∷ []) root z h (Memᴰ.tail m) = absurd (Memᴰ.not-nil m)
single-only (x ∷ y ∷ xs) root z h m = absurd cc
