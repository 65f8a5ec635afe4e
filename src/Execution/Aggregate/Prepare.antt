-- ===== src/Execution/Aggregate/Prepare.antt =====
-- The operator that aggregates: `Prepare` over the child, `Open`, `Rewind` and `FetchNext`
-- (komfydb/execution/aggregate.cc).
use komfy_db.Base.{
  ℕ, zero, suc, Bool, true, false, List, [], ◌∷◌, ◌++◌, length, Option, none, some, if◌then◌else◌,
}
use komfy_db.Base.Int.{ℤ}
use komfy_db.Base.State.{State, after}
use komfy_db.Base.Status.{StatusOr, Status, ok, err, fault, no_fuel, out_of_range, ◌>>=◌}
use komfy_db.Common.Field.{FieldType}
use komfy_db.Common.Tuple
use komfy_db.Common.Tuple.{Tuple, get_field, tuple_eq}
use komfy_db.Common.TupleDesc.{TupleDesc, get_field_type}
use komfy_db.Storage.Ids.{Record}
use komfy_db.Execution.Aggregator.{AggregateType, AggregateTuple, finalize_aggregates}
use komfy_db.Execution.Iterator.{OpIterator, Operator}
use komfy_db.Execution.Join.{joined_record_id}
use komfy_db.Execution.Aggregate.{Groups, group_id, into_groups, initialize_group, update_group}

-- The first loop of `PrepareWithGrouping`: the types of the grouping columns.
unfoldable pub groupby_types : TupleDesc → List ℤ → StatusOr (List FieldType)
groupby_types child_tuple_desc [] = ok []
groupby_types child_tuple_desc (i ∷ groupby_fields) = do
  type ← get_field_type child_tuple_desc i
  rest ← groupby_types child_tuple_desc groupby_fields
  ok (type ∷ rest)

-- The bodies of the loops over the child: one record into the groups, and into the result so far.
abbrev pub group_one : List AggregateType → List ℤ → List ℤ → Groups → Record → StatusOr Groups
group_one types fields groupby groups r = do
  id ← group_id groupby r.tuple
  into_groups types fields id r.tuple groups

abbrev pub result_one :
    List AggregateType → List ℤ → Option AggregateTuple → Record → StatusOr (Option AggregateTuple)
result_one types fields none r = do g ← initialize_group types fields r.tuple; ok (some g)
result_one types fields (some g) r = do g' ← update_group types fields r.tuple g; ok (some g')

-- The result without grouping; with no record every field stays unset.
abbrev pub result_fields : List AggregateType → Option AggregateTuple → Tuple
result_fields types none = Tuple.make (length types)
result_fields types (some g) = g.fields

abbrev is_nil : List ℤ → Bool
is_nil [] = true
is_nil (i ∷ is) = false

-- `out_tuples`, and those from `out_tuples_it` on.
pub record Aggregate (C : Type 0) : Type 0 where
  pub child : C
  pub out_tuples : List Tuple
  pub rest : List Tuple

module _ {C : Type 0} (child : OpIterator C) where
  -- `ITERATE_RECORDS` with a body that takes a value on, by what `Next` gave: at the end of the records
  -- the value is the result, and a body that fails ends the loop with its error.
  abbrev pub iterated :
      {A : Type 0}
      → (A → State C A)
      → (A → Record → StatusOr A)
      → A
      → C × StatusOr Record
      → C × StatusOr A
  iterated later body a (c, ok r) = after later c (body a r)
  iterated later body a (c, err out_of_range) = (c, ok a)
  iterated later body a (c, err x) = (c, err x)
  iterated later body a (c, fault) = (c, fault)
  iterated later body a (c, no_fuel) = (c, no_fuel)

  unfoldable pub iterate : {A : Type 0} → (A → Record → StatusOr A) → ℕ → A → State C A
  iterate body zero a c = (c, no_fuel)
  iterate body (suc fuel) a c = iterated (iterate body fuel) body a (child.next c)

  module _ (child_tuple_desc : TupleDesc) (walk : Groups → Groups) (types : List AggregateType)
      (fields groupby : List ℤ) (fuel : ℕ) where
    -- The loop over the groups; the tuples before one that cannot be finalised stay.
    unfoldable pub finalize_groups : Groups → State (Aggregate C) (Unit {0})
    finalize_groups [] s = (record s { rest = s.out_tuples }, ok tt)
    finalize_groups ((id, g) ∷ groups) s =
        after
          (λ g' s'.
            finalize_groups groups (record s' { out_tuples = s'.out_tuples ++ g'.fields ∷ [] }))
          s (finalize_aggregates types g)

    -- what is done with the value of a loop over the child
    abbrev pub looped :
        {A : Type 0}
        → (A → State (Aggregate C) (Unit {0}))
        → Aggregate C
        → C × StatusOr A
        → Aggregate C × StatusOr (Unit {0})
    looped f s (c, r) = after f (record s { child = c }) r

    unfoldable pub prepare_with_grouping : State (Aggregate C) (Unit {0})
    unfolding iterate finalize_groups
    prepare_with_grouping s =
        after
          (λ group_types s'.
            looped (λ groups. finalize_groups (walk groups)) s'
              (iterate (group_one types fields groupby) fuel [] s'.child))
          s (groupby_types child_tuple_desc groupby)

    abbrev pub with_result : Option AggregateTuple → State (Aggregate C) (Unit {0})
    with_result g s =
        let out = s.out_tuples ++ result_fields types g ∷ [] in
        (record s { out_tuples = out; rest = out }, ok tt)

    unfoldable pub prepare_no_grouping : State (Aggregate C) (Unit {0})
    unfolding iterate
    prepare_no_grouping s =
        looped with_result s (iterate (result_one types fields) fuel none s.child)

    -- `Prepare`: no grouping columns means no grouping.
    unfoldable pub prepare : State (Aggregate C) (Unit {0})
    unfolding prepare_with_grouping prepare_no_grouping
    prepare s = if is_nil groupby then prepare_no_grouping s else prepare_with_grouping s

    abbrev then_prepare : Aggregate C → C × Status → Aggregate C × Status
    then_prepare s (c, ok _) = prepare (record s { child = c })
    then_prepare s (c, other) = (record s { child = c }, other)

    -- `Rewind` clears `out_tuples` once the child is rewound.
    abbrev then_prepare_again : Aggregate C → C × Status → Aggregate C × Status
    then_prepare_again s (c, ok _) = prepare (record s { child = c; out_tuples = [] })
    then_prepare_again s (c, other) = (record s { child = c }, other)

    abbrev next_tuple : Aggregate C → List Tuple → Aggregate C × StatusOr Record
    next_tuple s [] = (s, err out_of_range)
    next_tuple s (t ∷ ts) =
        (record s { rest = ts }, ok (record { tuple = t; rid = joined_record_id }))

    abbrev pub aggregate : Operator (Aggregate C)
    aggregate = record {
      open_own = λ s. then_prepare s (child.open_it s.child);
      rewind_own = λ s. then_prepare_again s (child.rewind s.child);
      resets = true;
      fetch_next = λ s. next_tuple s s.rest;
    }
