-- ===== src/Execution/Aggregate.antt =====
-- Aggregation and grouping: komfydb/execution/aggregate.cc. The groups of the hash map are kept in
-- the order of their first record; the order in which the map is walked is a parameter.
pub mod Prepare
pub mod Results
use komfy_db.Base.{
  ℕ, zero, suc, Bool, true, false, List, [], ◌∷◌, ◌++◌, Bytes, codes, length, at?, Option, none,
  some, if◌then◌else◌,
}
use komfy_db.Base.Int.{ℤ, pos, negsuc}
use komfy_db.Base.State.{State, after}
use komfy_db.Base.Status.{
  StatusOr, Status, ok, err, fault, no_fuel, out_of_range, ◌>>=◌, ◌>>◌, or_fault,
}
use komfy_db.Common.Field.{Field, int_field, FieldType, int}
use komfy_db.Common.Tuple
use komfy_db.Common.Tuple.{Tuple, get_field, tuple_eq}
use komfy_db.Common.TupleDesc.{TupleDesc, get_field_type, get_field_name}
use komfy_db.Common.TupleDesc
use komfy_db.Storage.Ids.{Record, RecordId}
use komfy_db.Execution.Aggregator.{
  AggregateType, AggregateTuple, apply_aggregate, finalize_aggregates, aggregate_type_to_string,
}
use komfy_db.Execution.Iterator.{OpIterator, Operator}
use komfy_db.Execution.Join.{joined_record_id}

-- The loop of `Aggregate::Create`: type, name and alias of an output column.
unfoldable pub column :
    TupleDesc → List Bytes → AggregateType → ℤ → StatusOr (FieldType × Bytes × Bytes)
column td aliases AggregateType.none i = do
  t ← get_field_type td i
  name ← get_field_name td i
  alias ← or_fault (at? aliases i)
  ok (t, name, alias)
column td aliases type i = do
  name ← get_field_name td i
  ok (int, aggregate_type_to_string type ++ (codes "__" ++ name), codes "__aggregate__")

unfoldable pub columns :
    TupleDesc
    → List Bytes
    → List AggregateType
    → List ℤ
    → StatusOr (List (FieldType × Bytes × Bytes))
unfolding column
columns td aliases [] fields = ok []
columns td aliases (type ∷ types) [] = fault
columns td aliases (type ∷ types) (i ∷ fields) = do
  c ← column td aliases type i
  rest ← columns td aliases types fields
  ok (c ∷ rest)

-- `FillGroupIdFields`
unfoldable pub group_id : List ℤ → Tuple → StatusOr Tuple
group_id [] t = ok []
group_id (i ∷ groupby_fields) t = do
  f ← get_field t i
  rest ← group_id groupby_fields t
  ok (some f ∷ rest)

-- The loop of `UpdateGroup`; a field that is not set would be dereferenced.
unfoldable pub update_fields : List AggregateType → List ℤ → Tuple → Tuple → StatusOr Tuple
update_fields types [] t group = ok group
update_fields [] (i ∷ fields) t group = fault
update_fields (type ∷ types) (i ∷ fields) t [] = fault
update_fields (type ∷ types) (i ∷ fields) t (old ∷ group) = do
  next_field ← get_field t i
  f ← or_fault old
  f' ← apply_aggregate type f next_field
  rest ← update_fields types fields t group
  ok (some f' ∷ rest)

unfoldable pub update_group :
    List AggregateType → List ℤ → Tuple → AggregateTuple → StatusOr AggregateTuple
unfolding update_fields
update_group types fields t g = do
  fs ← update_fields types fields t g.fields
  ok (record { fields = fs; group_size = suc g.group_size })

-- `InitializeGroup`
unfoldable pub initial_field : AggregateType → ℤ → Tuple → StatusOr Field
initial_field AggregateType.count i t = ok (int_field (pos 1))
initial_field type i t = get_field t i

unfoldable pub initial_fields : List AggregateType → List ℤ → Tuple → StatusOr Tuple
unfolding initial_field
initial_fields types [] t = ok []
initial_fields [] (i ∷ fields) t = fault
initial_fields (type ∷ types) (i ∷ fields) t = do
  f ← initial_field type i t
  rest ← initial_fields types fields t
  ok (some f ∷ rest)

unfoldable pub initialize_group : List AggregateType → List ℤ → Tuple → StatusOr AggregateTuple
unfolding initial_fields
initialize_group types fields t = do
  fs ← initial_fields types fields t
  ok (record { fields = fs; group_size = 1 })

abbrev pub Groups : Type 0
Groups = List (Tuple × AggregateTuple)

-- One record in the loop of `PrepareWithGrouping`: the group with its id is updated, or a new one is
-- made.
unfoldable pub into_groups : List AggregateType → List ℤ → Tuple → Tuple → Groups → StatusOr Groups
unfolding update_group initialize_group
into_groups types fields id t [] = do g ← initialize_group types fields t; ok ((id, g) ∷ [])
into_groups types fields id t ((id', g) ∷ groups) =
    let later = into_groups types fields id t groups in
    do
      same ← tuple_eq id' id
      (if same
          then (update_group types fields t g >>= λ g'. ok ((id', g') ∷ groups))
          else (later >>= λ rest. ok ((id', g) ∷ rest)))

-- The loop of `PrepareWithGrouping`, over the records that the child gives.
unfoldable pub group_all :
    List AggregateType → List ℤ → List ℤ → List Record → Groups → StatusOr Groups
unfolding group_id into_groups
group_all types fields groupby [] groups = ok groups
group_all types fields groupby (r ∷ rs) groups = do
  id ← group_id groupby r.tuple
  groups' ← into_groups types fields id r.tuple groups
  group_all types fields groupby rs groups'

-- The loop of `PrepareNoGrouping` after the first record.
unfoldable pub update_all :
    List AggregateType → List ℤ → List Record → AggregateTuple → StatusOr AggregateTuple
unfolding update_group
update_all types fields [] g = ok g
update_all types fields (r ∷ rs) g = do
  g' ← update_group types fields r.tuple g
  update_all types fields rs g'

-- The result of `PrepareNoGrouping` over the records that the child gives: nothing is finalised, and with no record every field
-- stays unset.
unfoldable pub no_grouping : List AggregateType → List ℤ → List Record → StatusOr (List Tuple)
unfolding update_all initialize_group
no_grouping types fields [] = ok (Tuple.make (length types) ∷ [])
no_grouping types fields (r ∷ rs) = do
  g ← initialize_group types fields r.tuple
  g' ← update_all types fields rs g
  ok (g'.fields ∷ [])
