-- ===== src/Execution/LogicalPlan/Equiv.antt =====
-- The tables that joins have put together, a union-find forest of aliases:
-- komfydb/execution/logical_plan/logical_plan.cc. `equiv` is an association list.
pub mod Compression
pub mod Merge
pub mod Joins
pub mod Roots
use komfy_db.Base.{
  ℕ, zero, suc, ◌≡◌, ◌≢◌, List, [], ◌∷◌, Option, none, some, if◌then◌else◌, Bytes, bytes_eq,
}
use komfy_db.Base.Maps.{lookup, insert}
use komfy_db.Base.State.{State, ◌>>=◌, return}
use komfy_db.Base.Status.{StatusOr, ok, err, fault, no_fuel}
use komfy_db.Execution.LogicalPlan.{ScanNode, JoinNode, join_columns, join_subplan}

abbrev pub Equiv : Type 0
Equiv = List (Bytes × Bytes)

-- `equiv[name]`, which puts the empty string under a name that is missing
abbrev pub index_found : Bytes → Equiv → Option Bytes → Equiv × Bytes
index_found name equiv (some v) = (equiv, v)
index_found name equiv none = (insert bytes_eq name [] equiv, [])

abbrev pub index : Bytes → Equiv → Equiv × Bytes
index name equiv = index_found name equiv (lookup bytes_eq name equiv)

-- `equiv[name] = r` where the recursive call gave `r`
abbrev pub compress : Bytes → Equiv → StatusOr Bytes → Equiv × StatusOr Bytes
compress name equiv (ok r) = (insert bytes_eq name r equiv, ok r)
compress name equiv r = (equiv, r)

-- `GetEquiv`; the first argument bounds the depth of the recursion.
unfoldable pub get_equiv : ℕ → Bytes → State Equiv Bytes
get_equiv zero name equiv = (equiv, no_fuel)
get_equiv (suc fuel) name equiv =
    let found = index name equiv in
    let rest = get_equiv fuel found.1 found.0 in
    if bytes_eq found.1 name then (found.0, ok name) else compress name rest.0 rest.1

-- `equiv` after `ProcessScanNodes`
unfoldable pub scan_equiv : List ScanNode → Equiv → Equiv
scan_equiv [] equiv = equiv
scan_equiv (scan ∷ scans) equiv = scan_equiv scans (insert bytes_eq scan.alias scan.alias equiv)

-- The calls of `GetEquiv` by `ProcessJoinNodes` for a join of two tables, with the roots that it gives,
-- and the union of the two trees.
abbrev pub union : Bytes → Equiv × StatusOr Bytes → Equiv × StatusOr (Bytes × Bytes)
union ltable (equiv, ok rtable) = (insert bytes_eq rtable ltable equiv, ok (ltable, rtable))
union ltable (equiv, err c) = (equiv, err c)
union ltable (equiv, fault) = (equiv, fault)
union ltable (equiv, no_fuel) = (equiv, no_fuel)

unfoldable pub join_tables : ℕ → Bytes → Bytes → State Equiv (Bytes × Bytes)
join_tables fuel lname rname equiv =
    (get_equiv fuel lname >>= λ ltable. λ e. union ltable (get_equiv fuel rname e)) equiv

-- What `ProcessJoinNodes` does to `equiv`, in the order of the joins.
unfoldable pub join_equiv : {Sub : Type 0} → ℕ → List (JoinNode Sub) → State Equiv (Unit {0})
join_equiv fuel [] = return tt
join_equiv fuel (join_columns lref op rref ∷ joins) =
    join_tables fuel lref.table rref.table >>= λ _. join_equiv fuel joins
join_equiv fuel (join_subplan lref op subplan ∷ joins) =
    get_equiv fuel lref.table >>= λ _. join_equiv fuel joins

-- The loop of `GetSubplanRoots`, over the keys.
unfoldable pub roots : ℕ → List Bytes → State Equiv (List Bytes)
roots fuel [] = return []
roots fuel (table ∷ tables) =
    get_equiv fuel table >>= λ root. roots fuel tables >>= λ rest. return (root ∷ rest)

-- The name `x` leads to the root `r` in at most `n` steps.
pub data Leads (equiv : Equiv) : ℕ → Bytes → Bytes → Type 0 where
  at_root : {n : ℕ} {r : Bytes} → lookup bytes_eq r equiv ≡ some r → Leads equiv n r r
  up :
      {n : ℕ} {x v r : Bytes}
      → lookup bytes_eq x equiv ≡ some v
      → v ≢ x
      → Leads equiv n v r
      → Leads equiv (suc n) x r
