-- ===== src/Execution/LogicalPlan/Physical/Aligned.antt =====
-- A table alias for each field of a plan, and the search for a column
-- (komfydb/execution/op_iterator.cc, komfydb/execution/project.cc and komfydb/execution/aggregate.cc).
use mathlib.Core.Path.{subst}
use komfy_db.Base.{
  ℕ, suc, ◌+◌, ◌≡◌, refl, sym, ap, ◌∙◌, ◌⊎◌, inl, inr, List, [], ◌∷◌, length, Bytes, length-append,
  length-replicate, length-map, at?, ◌&&◌, bytes_eq, Bool-cases,
}
use komfy_db.Base.Int.{ℤ, pos}
use komfy_db.Base.Status.{ok, err, or_fault, invalid_argument, >>=-eq-ok, ok-injective}
use komfy_db.Common.TupleDesc
use komfy_db.Common.TupleDesc.{TdItem, TupleDesc, get_item, td_length}
use komfy_db.Execution.Project.{create_items}
use komfy_db.Execution.LogicalPlan.{ColumnRef}
use komfy_db.Execution.LogicalPlan.Fields.{column_from}
use komfy_db.Execution.LogicalPlan.Physical.{
  Plan, seq_scan, filter, join, order_by, project, aggregate, limit, tuple_desc, aliases_of,
  column_item, column_alias, index_of,
}
use komfy_db.Execution.LogicalPlan.Physical.Outputs.{column-HasField}
use komfy_db.Execution.LogicalPlan.Physical.WellFormed.{IsWellFormed, HasField}

create_items-length :
    (td : TupleDesc) (aliases : List Bytes) (idxs : List ℤ) (items : List TdItem) (out : List Bytes)
    → create_items td aliases idxs ≡ ok (items, out)
    → length out ≡ length items
unfolding create_items
create_items-length td aliases [] items out h =
    subst (λ (p : List TdItem × List Bytes). length p.1 ≡ length p.0) (ok-injective h) refl
create_items-length td aliases (idx ∷ idxs) items out h =
    let (item, e, k) = >>=-eq-ok (get_item td idx) _ h in
    let (alias, e', k') = >>=-eq-ok (or_fault (at? aliases idx)) _ k in
    let ((items', out'), e'', k'') = >>=-eq-ok (create_items td aliases idxs) _ k' in
    subst (λ (p : List TdItem × List Bytes). length p.1 ≡ length p.0) (ok-injective k'')
      (ap suc (create_items-length td aliases idxs items' out' e''))

-- A plan whose operators are well formed has as many aliases as fields.
IsWellFormed-aligned :
    (p : Plan) → IsWellFormed p → length (aliases_of p) ≡ length (tuple_desc p).items
unfolding IsWellFormed aliases_of tuple_desc TupleDesc.join
IsWellFormed-aligned (seq_scan table_id table_name alias td) w =
    length-replicate (td_length td) alias
IsWellFormed-aligned (filter child p) w = IsWellFormed-aligned child w.0
IsWellFormed-aligned (join l p r) w =
    length-append (aliases_of l) (aliases_of r)
    ∙ ap (λ n. n + length (aliases_of r)) (IsWellFormed-aligned l w.0)
    ∙ ap (λ n. length (tuple_desc l).items + n) (IsWellFormed-aligned r w.1)
    ∙ sym (length-append (tuple_desc l).items (tuple_desc r).items)
IsWellFormed-aligned (order_by child field order) w = IsWellFormed-aligned child w.0
IsWellFormed-aligned (project child idxs items aliases) w =
    create_items-length (tuple_desc child) (aliases_of child) idxs items aliases w.1
IsWellFormed-aligned (aggregate child types fields groupby cols) w =
    length-map cols column_alias ∙ sym (length-map cols column_item)
IsWellFormed-aligned (limit child n) w = IsWellFormed-aligned child w

column_from-found :
    (i : ℕ) (col : ColumnRef) (items : List TdItem) (aliases : List Bytes)
    → length aliases ≡ length items
    → ((k : ℕ) × (column_from i col items aliases ≡ ok k))
      ⊎ (column_from i col items aliases ≡ err invalid_argument)
unfolding column_from
column_from-found i col [] aliases h = inr refl
column_from-found i col (item ∷ items) [] h = absurd cc
column_from-found i col (item ∷ items) (alias ∷ aliases) h =
    elim (Bool-cases (bytes_eq col.table alias && bytes_eq item.field_name col.column)) [
      | inl e ↦ inl (i, rw e refl)
      | inr e ↦ rw e (column_from-found (suc i) col items aliases (cc))
    ]

-- In a plan whose operators are well formed, the search for a column gives the index of a field that the
-- plan has, or the error of a missing column: it never reads past the aliases.
pub index_of_lem :
    (p : Plan) (col : ColumnRef)
    → IsWellFormed p
    → ((k : ℕ) × (index_of p col ≡ ok k) × HasField (tuple_desc p) (pos k))
      ⊎ (index_of p col ≡ err invalid_argument)
index_of_lem p col w =
    elim (column_from-found 0 col (tuple_desc p).items (aliases_of p) (IsWellFormed-aligned p w)) [
      | inl found ↦
          inl (found.0, found.1, column-HasField (tuple_desc p) (aliases_of p) col found.0 found.1)
      | inr missing ↦ inr missing
    ]
