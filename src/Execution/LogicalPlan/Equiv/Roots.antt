-- ===== src/Execution/LogicalPlan/Equiv/Roots.antt =====
-- The names of the trees of tables stay the same, and the loop over them ends
-- (komfydb/execution/logical_plan/logical_plan.cc).
use mathlib.Core.List.{Memᴰ}
use mathlib.Core.List.Memᴰ
use komfy_db.Base.{
  ℕ, zero, suc, ◌<◌, ◌≡◌, refl, sym, ap, ◌∙◌, inl, inr, List, [], ◌∷◌, map, some, Bytes, bytes_eq,
  bytes_eq_iff, Bool-cases, arith, All, All-imp,
}
use komfy_db.Base.Maps.{lookup, insert}
use komfy_db.Base.Status.{ok}
use komfy_db.Execution.LogicalPlan.Equiv.{
  Equiv, get_equiv, join_tables, roots, scan_equiv, Leads, at_root, up,
}
use komfy_db.Execution.LogicalPlan.Equiv.Compression.{
  Leads-unique, get_equiv-Leads, root_of, bytes_differ, index_read,
}
use komfy_db.Execution.LogicalPlan.{ScanNode}
use komfy_db.Execution.LogicalPlan.Equiv.Joins.{Reaches, scan_equiv-Reaches}

abbrev pub names : {V : Type 0} → List (Bytes × V) → List Bytes
names m = map (λ e. e.0) m

-- a write to a name that is there
names-insert :
    {V : Type 0} (x : Bytes) (v w : V) (m : List (Bytes × V))
    → lookup bytes_eq x m ≡ some v
    → names (insert bytes_eq x w m) ≡ names m
unfolding lookup insert
names-insert x v w [] h = cc
names-insert x v w ((j, u) ∷ m) h = elim (Bool-cases (bytes_eq j x)) [
  | inl e ↦ rw e refl
  | inr e ↦ rw e (ap (λ rest. j ∷ rest) (names-insert x v w m (rw e at h)))
]

Leads-read :
    {e : Equiv} {n : ℕ} {x r : Bytes} → Leads e n x r → (v : Bytes) × (lookup bytes_eq x e ≡ some v)
Leads-read (at_root {r = r} h) = (r, h)
Leads-read (up {v = v} h ne l) = (v, h)

pub get_equiv-names :
    (n fuel : ℕ) (e : Equiv) (x r : Bytes)
    → Leads e n x r
    → n < fuel
    → names (get_equiv fuel x e).0 ≡ names e
unfolding get_equiv
get_equiv-names n zero e x r l h = absurd (omega arith)
get_equiv-names n (suc fuel) e x r (at_root k) h =
    rw (index_read e x k, (bytes_eq_iff x x).1 refl) refl
get_equiv-names n (suc fuel) e x r (up {n = n'} {v = v} k ne l) h =
    let (e', same, keeps) = get_equiv-Leads n' fuel e v r l (omega arith) in
    let (w, there) = Leads-read (keeps n x r (up k ne l)) in
    rw (index_read e x k, bytes_differ v x ne, same)
      (names-insert x w r e' there
        ∙ sym (ap (λ p. names p.0) same)
        ∙ get_equiv-names n' fuel e v r l (omega arith))

pub join_tables-names :
    (fuel : ℕ) (e : Equiv) (l r a b : Bytes) (n m : ℕ)
    → Leads e n l a
    → Leads e m r b
    → n < fuel
    → m < fuel
    → names (join_tables fuel l r e).0 ≡ names e
unfolding join_tables
join_tables-names fuel e l r a b n m la rb h h' =
    let (e1, same1, keeps1) = get_equiv-Leads n fuel e l a la h in
    let (e2, same2, keeps2) = get_equiv-Leads m fuel e1 r b (keeps1 m r b rb) h' in
    rw (same1, same2)
      (names-insert b b a e2 (root_of (keeps2 m r b (keeps1 m r b rb)))
        ∙ sym (ap (λ p. names p.0) same2)
        ∙ get_equiv-names m fuel e1 r b (keeps1 m r b rb) h'
        ∙ sym (ap (λ p. names p.0) same1)
        ∙ get_equiv-names n fuel e l a la h)

-- The loop of `GetSubplanRoots` ends where its names lead to roots, and gives these.
pub roots-ends :
    (fuel n : ℕ) (tables : List Bytes) (e : Equiv)
    → All (Reaches e n) tables
    → n < fuel
    → (e' : Equiv) × (rs : List Bytes) × (roots fuel tables e ≡ (e', ok rs))
      × ((y r : Bytes) → Memᴰ y tables → Leads e n y r → Memᴰ r rs)
unfolding roots
roots-ends fuel n [] e h lt = (e, [], refl, λ y r m l. absurd (Memᴰ.not-nil m))
roots-ends fuel n (table ∷ tables) e ((r, l), h) lt =
    let (e1, same, keeps) = get_equiv-Leads n fuel e table r l lt in
    let (e2, rs, same2, gives) =
      roots-ends fuel n tables e1 (All-imp _ _ tables (λ y g. (g.0, keeps n y g.0 g.1)) h) lt in
    (e2, r ∷ rs, rw (same, same2) refl, λ y s m k. given m k keeps gives)
  where
    given :
        {e1 : Equiv} {rs : List Bytes} {y s : Bytes}
        → Memᴰ y (table ∷ tables)
        → Leads e n y s
        → ((m : ℕ) (y s : Bytes) → Leads e m y s → Leads e1 m y s)
        → ((y r : Bytes) → Memᴰ y tables → Leads e1 n y r → Memᴰ r rs)
        → Memᴰ s (r ∷ rs)
    given (Memᴰ.head p) k keeps gives = Memᴰ.head (Leads-unique k l p)
    given {y = y} {s = s} (Memᴰ.tail m) k keeps gives = Memᴰ.tail (gives y s m (keeps n y s k))

-- A name that can be read is a name of the map.
pub names-Memᴰ :
    {V : Type 0} (x : Bytes) (v : V) (m : List (Bytes × V))
    → lookup bytes_eq x m ≡ some v
    → Memᴰ x (names m)
unfolding lookup
names-Memᴰ x v [] h = absurd cc
names-Memᴰ x v ((j, u) ∷ m) h = elim (Bool-cases (bytes_eq j x)) [
  | inl e ↦ Memᴰ.head (sym ((bytes_eq_iff j x).0 e))
  | inr e ↦ Memᴰ.tail (names-Memᴰ x v m (rw e at h))
]

names-insert-All :
    {V : Type 0} (P : Bytes → Type 0) (x : Bytes) (v : V) (m : List (Bytes × V))
    → All P (names m)
    → P x
    → All P (names (insert bytes_eq x v m))
unfolding insert
names-insert-All P x v [] h px = (px, tt)
names-insert-All P x v ((j, u) ∷ m) (pj, h) px = elim (Bool-cases (bytes_eq j x)) [
  | inl e ↦ rw e (pj, h)
  | inr e ↦ rw e (pj, names-insert-All P x v m h px)
]

pub scan_equiv-All :
    (P : Bytes → Type 0) (scans : List ScanNode) (e : Equiv)
    → All P (names e)
    → All P (map (λ scan. scan.alias) scans)
    → All P (names (scan_equiv scans e))
unfolding scan_equiv
scan_equiv-All P [] e h k = h
scan_equiv-All P (scan ∷ scans) e h (p, k) =
    scan_equiv-All P scans (insert bytes_eq scan.alias scan.alias e)
      (names-insert-All P scan.alias scan.alias e h p) k

pub All-Memᴰ : (xs : List Bytes) → All (λ x. Memᴰ x xs) xs
All-Memᴰ [] = tt
All-Memᴰ (x ∷ xs) = (Memᴰ.head refl, All-imp _ _ xs (λ y m. Memᴰ.tail m) (All-Memᴰ xs))

-- After the scans every name is its own root.
pub scan_equiv-roots :
    (scans : List ScanNode) → All (Reaches (scan_equiv scans []) 0) (names (scan_equiv scans []))
scan_equiv-roots scans = All-imp _ _ (names (scan_equiv scans [])) (scan_equiv-Reaches scans) (
    scan_equiv-All (λ y. Memᴰ y (map (λ scan. scan.alias) scans)) scans [] tt
      (All-Memᴰ (map (λ scan. scan.alias) scans)))
