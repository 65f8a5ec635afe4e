-- ===== src/Execution/LogicalPlan/Equiv/Joins.antt =====
-- The joins of a plan of any number of tables end (komfydb/execution/logical_plan/logical_plan.cc).
use mathlib.Core.List.{Memᴰ}
use mathlib.Core.List.Memᴰ
use mathlib.Core.Path.{subst}
use komfy_db.Base.{
  same_or_other, ℕ, suc, map, All-imp, ◌+◌, ◌<◌, ◌≡◌, refl, sym, ap, ◌∙◌, inl, inr, List, [], ◌∷◌,
  some, Bytes, bytes_eq, length, arith, All,
}
use komfy_db.Base.Maps.{lookup, insert}
use komfy_db.Base.Status.{ok}
use komfy_db.Execution.LogicalPlan.{ScanNode, JoinNode, join_columns, join_subplan}
use komfy_db.Execution.LogicalPlan.Equiv.{
  Equiv, get_equiv, scan_equiv, join_equiv, Leads, at_root, up,
}
use komfy_db.Execution.LogicalPlan.Equiv.Compression.{
  lookup-written, lookup-other, root_of, get_equiv-Leads,
}
use komfy_db.Execution.LogicalPlan.Equiv.Merge.{merged, join_tables_lem}

-- The name leads to some root in at most `n` steps.
abbrev pub Reaches : Equiv → ℕ → Bytes → Type 0
Reaches e n y = (s : Bytes) × Leads e n y s

-- The tables that a join names lead to roots.
abbrev pub TablesReach : {Sub : Type 0} → Equiv → ℕ → JoinNode Sub → Type 0
TablesReach e n (join_columns lref op rref) = Reaches e n lref.table × Reaches e n rref.table
TablesReach e n (join_subplan lref op subplan) = Reaches e n lref.table

pub Leads-suc : {e : Equiv} {n : ℕ} {x r : Bytes} → Leads e n x r → Leads e (suc n) x r
Leads-suc (at_root h) = at_root h
Leads-suc (up h ne l) = up h ne (Leads-suc l)

pub Reaches-eq : (e : Equiv) {n m : ℕ} (y : Bytes) → n ≡ m → Reaches e n y → Reaches e m y
Reaches-eq e y p g = subst (λ k. Reaches e k y) p g

module _ {Sub : Type 0} where
  pub tables_kept :
      {e e' : Equiv} {n n' : ℕ} (joins : List (JoinNode Sub))
      → ((y : Bytes) → Reaches e n y → Reaches e' n' y)
      → All (TablesReach e n) joins
      → All (TablesReach e' n') joins
  tables_kept [] keeps h = tt
  tables_kept (join_columns lref op rref ∷ joins) keeps (h, hs) =
      ((keeps lref.table h.0, keeps rref.table h.1), tables_kept joins keeps hs)
  tables_kept (join_subplan lref op subplan ∷ joins) keeps (h, hs) =
      (keeps lref.table h, tables_kept joins keeps hs)

  join_equiv-Leads :
      (fuel : ℕ) (joins : List (JoinNode Sub)) (e : Equiv) (n : ℕ)
      → All (TablesReach e n) joins
      → n + length joins < fuel
      → (e' : Equiv) × (join_equiv fuel joins e ≡ (e', ok tt))
        × ((y : Bytes) → Reaches e n y → Reaches e' (n + length joins) y)
  unfolding join_equiv
  join_equiv-Leads fuel [] e n hs h = (e, refl, λ y g. Reaches-eq e y (omega arith) g)
  join_equiv-Leads fuel (join_columns lref op rref ∷ joins) e n (((a, la), (b, lb)), hs) h =
      let (e1, same1, keeps1) =
        join_tables_lem fuel e lref.table rref.table a b n n la lb (omega arith) (omega arith) in
      let (e2, same2, keeps2) =
        join_equiv-Leads fuel joins e1 (suc n)
          (tables_kept joins (λ y g. (merged a b g.0, keeps1 n y g.0 g.1)) hs) (omega arith) in
      (
        e2,
        rw (same1, same2) refl,
        λ y g. Reaches-eq e2 y (omega arith) (keeps2 y (merged a b g.0, keeps1 n y g.0 g.1)),
      )
  join_equiv-Leads fuel (join_subplan lref op subplan ∷ joins) e n (g, hs) h =
      let (e1, same1, keeps1) = get_equiv-Leads n fuel e lref.table g.0 g.1 (omega arith) in
      let (e2, same2, keeps2) =
        join_equiv-Leads fuel joins e1 (suc n)
          (tables_kept joins (λ y g. (g.0, Leads-suc (keeps1 n y g.0 g.1))) hs) (omega arith) in
      (
        e2,
        rw (same1, same2) refl,
        λ y g. Reaches-eq e2 y (omega arith) (keeps2 y (g.0, Leads-suc (keeps1 n y g.0 g.1))),
      )

-- Every alias of a scan is its own root at first.
scan_equiv-keeps :
    (scans : List ScanNode) (e : Equiv) (x : Bytes)
    → lookup bytes_eq x e ≡ some x
    → lookup bytes_eq x (scan_equiv scans e) ≡ some x
unfolding scan_equiv
scan_equiv-keeps [] e x h = h
scan_equiv-keeps (scan ∷ scans) e x h =
    scan_equiv-keeps scans (insert bytes_eq scan.alias scan.alias e) x
      (elim (same_or_other scan.alias x) [
        | inl p ↦
            subst (λ z. lookup bytes_eq x (insert bytes_eq z z e) ≡ some x) (sym p)
              (lookup-written x x e)
        | inr other ↦ lookup-other scan.alias x scan.alias e other ∙ h
      ])

-- The aliases of the scans reach roots, themselves.
pub scan_equiv-Leads :
    (scans : List ScanNode) (e : Equiv) (y : Bytes)
    → Memᴰ y (map (λ scan. scan.alias) scans)
    → lookup bytes_eq y (scan_equiv scans e) ≡ some y
unfolding scan_equiv
scan_equiv-Leads [] e y m = absurd (Memᴰ.not-nil m)
scan_equiv-Leads (scan ∷ scans) e y (Memᴰ.head p) =
    scan_equiv-keeps scans (insert bytes_eq scan.alias scan.alias e) y
      (subst (λ z. lookup bytes_eq y (insert bytes_eq z z e) ≡ some y) p (lookup-written y y e))
scan_equiv-Leads (scan ∷ scans) e y (Memᴰ.tail m) =
    scan_equiv-Leads scans (insert bytes_eq scan.alias scan.alias e) y m

pub scan_equiv-Reaches :
    (scans : List ScanNode) (y : Bytes)
    → Memᴰ y (map (λ scan. scan.alias) scans)
    → Reaches (scan_equiv scans []) 0 y
scan_equiv-Reaches scans y m = (y, at_root (scan_equiv-Leads scans [] y m))

module _ {Sub : Type 0} where
  -- The tables that a join names are aliases of scans.
  abbrev pub TablesScanned : List ScanNode → JoinNode Sub → Type 0
  TablesScanned scans (join_columns lref op rref) =
      Memᴰ lref.table (map (λ scan. scan.alias) scans)
      × Memᴰ rref.table (map (λ scan. scan.alias) scans)
  TablesScanned scans (join_subplan lref op subplan) =
      Memᴰ lref.table (map (λ scan. scan.alias) scans)

  pub tables_scanned :
      (scans : List ScanNode) (join : JoinNode Sub)
      → TablesScanned scans join
      → TablesReach (scan_equiv scans []) 0 join
  tables_scanned scans (join_columns lref op rref) (h, k) =
      (scan_equiv-Reaches scans lref.table h, scan_equiv-Reaches scans rref.table k)
  tables_scanned scans (join_subplan lref op subplan) h = scan_equiv-Reaches scans lref.table h

  -- Where every table that a join names is the alias of a scan, and the fuel is above the number of
  -- joins, the joins' calls of `get_equiv` all return; after them the alias of each scan leads, with
  -- the same fuel, to a name that is its own root.
  pub joins_end :
      (scans : List ScanNode) (joins : List (JoinNode Sub)) (fuel : ℕ)
      → All (TablesScanned scans) joins
      → length joins < fuel
      → (e : Equiv) × (join_equiv fuel joins (scan_equiv scans []) ≡ (e, ok tt))
        × ((y : Bytes)
            → Memᴰ y (map (λ scan. scan.alias) scans)
            → (r : Bytes) × (get_equiv fuel y e).1 ≡ ok r × (lookup bytes_eq r e ≡ some r))
  joins_end scans joins fuel h lt =
      let (e, same, keeps) =
        join_equiv-Leads fuel joins (scan_equiv scans []) 0
          (All-imp _ _ joins (tables_scanned scans) h) (omega arith) in
      (
        e,
        same,
        λ y m.
            let (r, l) = keeps y (scan_equiv-Reaches scans y m) in
            let (e', same', _) = get_equiv-Leads (0 + length joins) fuel e y r l (omega arith) in
            (r, ap (λ p. p.1) same', root_of l),
      )
