-- ===== src/Execution/LogicalPlan/Fields/Aggregated.antt =====
-- The fields of aggregates fit their types (komfydb/execution/logical_plan/logical_plan.cc).
use mathlib.Core.Path.{subst}
use komfy_db.Base.{
  ℕ, zero, suc, ◌+◌, ◌≤◌, ◌≡◌, refl, Bool, true, false, ◌&&◌, List, [], ◌∷◌, ◌++◌, map, length,
  if◌then◌else◌, Bytes, arith, All, All-append, get_elem?-of_lt,
}
use komfy_db.Base.Int.{pos}
use komfy_db.Base.Status.{ok, err, failed_precondition, ◌>>=◌, >>=-eq-ok, ok-injective}
use komfy_db.Common.Field.{FieldType, int, string}
use komfy_db.Common.TupleDesc.{TupleDesc, get_field_type}
use komfy_db.Execution.Aggregator.{AggregateType, is_applicable}
use komfy_db.Execution.LogicalPlan.{AggregateNode, is_star}
use komfy_db.Execution.LogicalPlan.Fields.{
  indices, is_none, applied, aggregate_field, aggregate_fields, get_index_for_column_ref,
}

-- The schema has the field, and the aggregate function applies to its type.
abbrev pub Fits : TupleDesc → AggregateType × ℕ → Type 0
Fits td (type, i) =
    (field_type : FieldType) × (get_field_type td (pos i) ≡ ok field_type)
    × (is_applicable type field_type ≡ true)

none_applies : (t : FieldType) → is_applicable AggregateType.none t ≡ true
unfolding is_applicable
none_applies int = refl
none_applies string = refl

indices-Fits :
    (td : TupleDesc) (i n : ℕ)
    → i + n ≤ length td.items
    → All (Fits td) (map (λ j. (AggregateType.none, j)) (indices i n))
unfolding get_field_type
indices-Fits td i zero h = tt
indices-Fits td i (suc n) h =
    let (item, e) = get_elem?-of_lt td.items i (omega arith) in
    (
      (item.field_type, rw e refl, none_applies item.field_type),
      indices-Fits td (suc i) n (omega arith),
    )

applied-Fits :
    (td : TupleDesc) (type : AggregateType) (field : ℕ) (t : FieldType)
    → get_field_type td (pos field) ≡ ok t
    → (b : Bool) → is_applicable type t ≡ b
    → (fields : List (AggregateType × ℕ))
    → (if b then ok ((type, field) ∷ []) else err failed_precondition) ≡ ok fields
    → All (Fits td) fields
applied-Fits td type field t e true same fields h =
    subst (All (Fits td)) (ok-injective h) ((t, e, same), tt)
applied-Fits td type field t e false same fields h = absurd cc

aggregate_field-Fits :
    (td : TupleDesc) (aliases : List Bytes) (a : AggregateNode) (b : Bool)
    (fields : List (AggregateType × ℕ))
    → (if b
        then ok (map (λ i. (AggregateType.none, i)) (indices 0 (length td.items)))
        else (get_index_for_column_ref td aliases a.col >>= λ field.
            get_field_type td (pos field) >>= λ t. applied a.agg_type field t))
      ≡ ok fields
    → All (Fits td) fields
aggregate_field-Fits td aliases a true fields h =
    subst (All (Fits td)) (ok-injective h) (indices-Fits td 0 (length td.items) (omega arith))
aggregate_field-Fits td aliases a false fields h =
    let (field, found, k) = >>=-eq-ok (get_index_for_column_ref td aliases a.col) _ h in
    let (t, typed, k') = >>=-eq-ok (get_field_type td (pos field)) (applied a.agg_type field) k in
    applied-Fits td a.agg_type field t typed (is_applicable a.agg_type t) refl fields k'

-- Each aggregate that the first loop of `ProcessAggregateNodes` takes, a star included, is of a field that
-- the schema has, and of a function that applies to the type of the field.
pub aggregate_fields_fit :
    (td : TupleDesc) (aliases : List Bytes) (aggregates : List AggregateNode)
    (fields : List (AggregateType × ℕ))
    → aggregate_fields td aliases aggregates ≡ ok fields
    → All (Fits td) fields
unfolding aggregate_fields aggregate_field
aggregate_fields_fit td aliases [] fields h = subst (All (Fits td)) (ok-injective h) tt
aggregate_fields_fit td aliases (a ∷ aggregates) fields h =
    let (here, e, k) = >>=-eq-ok (aggregate_field td aliases a) _ h in
    let (rest, e', k') =
      >>=-eq-ok (aggregate_fields td aliases aggregates) (λ rest. ok (here ++ rest)) k in
    subst (All (Fits td)) (ok-injective k') (
      All-append (Fits td) here rest
        (aggregate_field-Fits td aliases a (is_none a.agg_type && is_star a.col) here e)
        (aggregate_fields_fit td aliases aggregates rest e'))
