-- ===== src/Execution/LogicalPlan/Physical/WellFormed.antt =====
-- The operators that the calls for one node make are well formed
-- (komfydb/execution/logical_plan/logical_plan.cc and komfydb/optimizer/join_optimizer.cc).
use mathlib.Core.Path.{subst}
use komfy_db.Base.{ℕ, ◌≡◌, refl, ap, ◌∙◌, Bool, true, false, List, [], ◌∷◌, Option, none, some, All}
use komfy_db.Base.Int.{ℤ, pos}
use komfy_db.Base.Status.{ok, guard, or_fault, failed_precondition, >>=-eq-ok, ok-injective}
use komfy_db.Common.Field.{FieldType, type_eq, int, string}
use komfy_db.Common.Op.{Op}
use komfy_db.Common.TupleDesc.{TupleDesc, get_field_type}
use komfy_db.Execution.Aggregate.{columns}
use komfy_db.Execution.Aggregator.{AggregateType, is_applicable}
use komfy_db.Execution.Filter
use komfy_db.Execution.Predicate.{Predicate, col_const, col_col, JoinPredicate}
use komfy_db.Execution.Project.{create_items}
use komfy_db.Execution.LogicalPlan.{ColumnRef, FilterNode, get_predicate}
use komfy_db.Execution.LogicalPlan.Physical.{
  Plan, seq_scan, filter, join, order_by, project, aggregate, limit, tuple_desc, aliases_of,
  index_of, create_filter, create_join, join_two, join_first,
}

abbrev pub HasField : TupleDesc → ℤ → Type 0
HasField td i = (t : FieldType) × (get_field_type td i ≡ ok t)

-- The columns of a predicate are fields of the schema.
abbrev pub PredicateFits : TupleDesc → Predicate → Type 0
PredicateFits td (col_const l op f) = HasField td l
PredicateFits td (col_col l op r) = HasField td l × HasField td r

-- The two fields that a join compares have one type.
abbrev pub SameType : TupleDesc → TupleDesc → JoinPredicate → Type 0
SameType l r p =
    (t : FieldType) × (get_field_type l p.l_field_idx ≡ ok t)
    × (get_field_type r p.r_field_idx ≡ ok t)

-- As many functions as fields, each applicable to the type of its field.
abbrev pub Applies : TupleDesc → List AggregateType → List ℤ → Type 0
Applies td [] [] = Unit
Applies td (type ∷ types) (i ∷ fields) =
    ((t : FieldType) × (get_field_type td i ≡ ok t) × (is_applicable type t ≡ true))
    × Applies td types fields
Applies td [] (i ∷ fields) = ⊥
Applies td (type ∷ types) [] = ⊥

-- Each operator of the plan reads fields that its child has, of types that it can work on, and the
-- columns of projections and aggregates are those of the fields that they read.
unfoldable pub IsWellFormed : Plan → Type 0
IsWellFormed (seq_scan table_id table_name alias td) = Unit
IsWellFormed (filter child p) = IsWellFormed child × PredicateFits (tuple_desc child) p
IsWellFormed (join l p r) =
    IsWellFormed l × IsWellFormed r × SameType (tuple_desc l) (tuple_desc r) p
IsWellFormed (order_by child field order) =
    IsWellFormed child × HasField (tuple_desc child) (pos field)
IsWellFormed (project child idxs items aliases) =
    IsWellFormed child
    × (create_items (tuple_desc child) (aliases_of child) idxs ≡ ok (items, aliases))
IsWellFormed (aggregate child types fields groupby cols) =
    IsWellFormed child
    × Applies (tuple_desc child) types fields
    × All (HasField (tuple_desc child)) groupby
    × (columns (tuple_desc child) (aliases_of child) types fields ≡ ok cols)
IsWellFormed (limit child n) = IsWellFormed child

predicate_checked :
    (td : TupleDesc) (p : Predicate) {u : Unit {0}} → Filter.create td p ≡ ok u → PredicateFits td p
unfolding Filter.create
predicate_checked td (col_const l op f) h =
    let (t, e, k) = >>=-eq-ok (get_field_type td l) _ h in (t, e)
predicate_checked td (col_col l op r) h =
    let (t, e, k) = >>=-eq-ok (get_field_type td l) _ h in
    let (t', e', k') = >>=-eq-ok (get_field_type td r) _ k in ((t, e), (t', e'))

pub create_filter-IsWellFormed :
    (node : FilterNode) (child plan : Plan)
    → IsWellFormed child
    → create_filter node child ≡ ok plan
    → IsWellFormed plan
unfolding create_filter IsWellFormed
create_filter-IsWellFormed node child plan w h =
    let (p, e, k) = >>=-eq-ok (get_predicate (tuple_desc child) node) _ h in
    let (u, e', k') = >>=-eq-ok (Filter.create (tuple_desc child) p) _ k in
    subst IsWellFormed (ok-injective k') (w, predicate_checked (tuple_desc child) p e')

types_agree : (a b : FieldType) → type_eq a b ≡ true → b ≡ a
unfolding type_eq
types_agree int int h = refl
types_agree string string h = refl
types_agree int string h = absurd cc
types_agree string int h = absurd cc

guard_passed : (b : Bool) {u : Unit {0}} → guard b failed_precondition ≡ ok u → b ≡ true
guard_passed true h = refl
guard_passed false h = absurd cc

create_join-IsWellFormed :
    (l : Plan) (i : ℕ) (op : Op) (r : Plan) (j : ℕ) (plan : Plan)
    → IsWellFormed l
    → IsWellFormed r
    → create_join l i op r j ≡ ok plan
    → IsWellFormed plan
unfolding create_join IsWellFormed
create_join-IsWellFormed l i op r j plan w v h =
    let (t, e, k) = >>=-eq-ok (get_field_type (tuple_desc l) (pos i)) _ h in
    let (t', e', k') = >>=-eq-ok (get_field_type (tuple_desc r) (pos j)) _ k in
    let (u, e'', k'') = >>=-eq-ok (guard (type_eq t t') failed_precondition) _ k' in
    subst IsWellFormed (ok-injective k'')
      (w, v, (t, e, e' ∙ ap ok (types_agree t t' (guard_passed (type_eq t t') e''))))

-- What a pointer that is not null points at is well formed.
abbrev pub PointsWell : Option Plan → Type 0
PointsWell none = Unit
PointsWell (some plan) = IsWellFormed plan

pub or_fault-IsWellFormed :
    (o : Option Plan) (plan : Plan) → PointsWell o → or_fault o ≡ ok plan → IsWellFormed plan
or_fault-IsWellFormed none plan w h = absurd cc
or_fault-IsWellFormed (some p) plan w h = subst IsWellFormed (ok-injective h) w

pub join_two-IsWellFormed :
    (lref : ColumnRef) (op : Op) (rref : ColumnRef) (l r : Option Plan) (plan : Plan)
    → PointsWell l
    → PointsWell r
    → join_two lref op rref l r ≡ ok plan
    → IsWellFormed plan
unfolding join_two
join_two-IsWellFormed lref op rref l r plan w v h =
    let (l', a, k) = >>=-eq-ok (or_fault l) _ h in
    let (i, _, k1) = >>=-eq-ok (index_of l' lref) _ k in
    let (r', b, k2) = >>=-eq-ok (or_fault r) _ k1 in
    let (j, _, k3) = >>=-eq-ok (index_of r' rref) (create_join l' i op r') k2 in
    create_join-IsWellFormed l' i op r' j plan (or_fault-IsWellFormed l l' w a)
      (or_fault-IsWellFormed r r' v b) k3

pub join_first-IsWellFormed :
    (lref : ColumnRef) (op : Op) (l : Option Plan) (r plan : Plan)
    → PointsWell l
    → IsWellFormed r
    → join_first lref op l r ≡ ok plan
    → IsWellFormed plan
unfolding join_first
join_first-IsWellFormed lref op l r plan w v h =
    let (l', a, k) = >>=-eq-ok (or_fault l) _ h in
    let (i, _, k1) = >>=-eq-ok (index_of l' lref) (λ i. create_join l' i op r 0) k in
    create_join-IsWellFormed l' i op r 0 plan (or_fault-IsWellFormed l l' w a) v k1
