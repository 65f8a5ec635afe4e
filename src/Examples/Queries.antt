-- ===== src/Examples/Queries.antt =====
-- Examples for the iterators of a query.
use mathlib.Core.Path.{subst}
use komfy_db.Base.{
  sym, ap, ◌∙◌, ◌+◌, ◌≡◌, refl, true, false, List, [], ◌∷◌, some, none, codes, arith, map, take,
  All,
}
use komfy_db.Base.Int.{ℤ, pos, negsuc}
use komfy_db.Base.Status.{ok, fault}
use komfy_db.Common.Field.{string, int_field, string_field, compare_fields, get_type}
use komfy_db.Common.Op.{equals, less_than}
use komfy_db.Common.Tuple.{get_field, join}
use komfy_db.Common.Tuple
use komfy_db.Common.TupleDesc.{TdItem, get_item}
use komfy_db.Execution.Aggregate.{Groups, group_all}
use komfy_db.Execution.Aggregate.Results.{group_all-total, group_total}
use komfy_db.Execution.Aggregator.{AggregateType}
use komfy_db.Execution.Filter.{filter, Selects}
use komfy_db.Execution.Filter.Streaming.{filter-Streams}
use komfy_db.Execution.Fixed.{Fixed, fixed, fixed-Fetches}
use komfy_db.Execution.Iterator.{Iter, OpIterator, iterator, fresh, rewind_iter, open_iter, next}
use komfy_db.Execution.Iterator.Streams.{Streams, Fetches-Streams}
use komfy_db.Execution.Join
use komfy_db.Execution.Join.{joined, Join}
use komfy_db.Execution.Join.Streaming.{Pairs, Products, Replays, join-Streams}
use komfy_db.Execution.Limit.{Limit, limit_op, limit-Streams}
use komfy_db.Execution.Modify.{insert, count_record}
use komfy_db.Execution.Modify.Once.{insert-Streams}
use komfy_db.Execution.OrderBy.{Order, OrderBy, order_by, prepare, fetch, comparable}
use komfy_db.Execution.OrderBy.Rewinding.{order_by-rewind_faults}
use komfy_db.Execution.Predicate.{Predicate, evaluate, JoinPredicate, matches}
use komfy_db.Execution.Project.{create_items, project}
use komfy_db.Execution.Project.Streaming.{IsTyped, chosen, project-Streams}
use komfy_db.Storage.Ids.{Record}
use komfy_db.Examples.{people, ann_record, bob_record, both}

query_program : Unit {0}
unfolding evaluate matches compare_fields get_field rewind_iter group_all open_iter next prepare
    fetch comparable Tuple.tuple_eq
query_program = tt

abbrev source : OpIterator (Iter Fixed)
source = iterator fixed

abbrev at_start : Fixed
at_start = record { records = both; it = both }

abbrev at_end : Fixed
at_end = record { records = both; it = [] }

both-Streams : Streams source (fresh at_start) both (fresh at_end)
both-Streams = Fetches-Streams (fixed-Fetches both both)

abbrev is_one : Predicate
is_one = Predicate.col_const (pos 0) equals (int_field (pos 1))

ann-Selects : Selects is_one both (ann_record ∷ [])
unfolding query_program
ann-Selects = Selects.keep refl (Selects.drop refl Selects.none_left)

filter-Streams_example :
    Streams
      (iterator (filter source is_one 3))
      (fresh (fresh at_start))
      (ann_record ∷ [])
      (fresh (fresh at_end))
filter-Streams_example = filter-Streams source is_one 3 both-Streams ann-Selects (omega arith)

limit-Streams_example :
    (e' : Iter (Limit (Iter Fixed))) × Streams
      (iterator (limit_op source (pos 1)))
      (fresh (record { child = fresh at_start; fetched = 0 }))
      (take 1 both)
      e'
limit-Streams_example = limit-Streams source 1 both-Streams

abbrev name_item : List TdItem
name_item = record { field_type = string; field_name = codes "name" } ∷ []

abbrev names_only : List ℤ
names_only = pos 1 ∷ []

name_created :
    create_items people (codes "p" ∷ codes "p" ∷ []) names_only ≡ ok (name_item, codes "p" ∷ [])
unfolding create_items get_item
name_created = refl

both-IsTyped : All (λ (r : Record). IsTyped people.items r.tuple) both
unfolding get_type
both-IsTyped = ((refl, (refl, tt)), ((refl, (refl, tt)), tt))

project-Streams_example :
    Streams
      (iterator (project source name_item names_only))
      (fresh (fresh at_start))
      (map (chosen names_only) both)
      (fresh (fresh at_end))
project-Streams_example =
    project-Streams source people (codes "p" ∷ codes "p" ∷ []) names_only name_item (codes "p" ∷ [])
      name_created both-Streams both-IsTyped

names_chosen :
    map (chosen names_only) both
    ≡ record ann_record { tuple = some (string_field (codes "Ann")) ∷ [] }
      ∷ record bob_record { tuple = some (string_field (codes "Bob")) ∷ [] }
      ∷ []
names_chosen = refl

-- pairs of a record with one of a lower id
abbrev lower : JoinPredicate
lower = record { l_field_idx = pos 0; op = less_than; r_field_idx = pos 0 }

abbrev IsStart : Iter Fixed → Type 0
IsStart r = r ≡ fresh at_start

at_end-rewind : source.rewind (fresh at_end) ≡ (fresh at_start, ok tt)
unfolding query_program
at_end-rewind = refl

both-Replays : Replays source both IsStart
both-Replays = record {
  plays = λ r at. (
    fresh at_end,
    subst (λ x. Streams source x both (fresh at_end)) (sym at) both-Streams,
    (fresh at_start, at_end-rewind, refl),
  );
}

both-Products : Products lower both both (joined bob_record ann_record ∷ [])
unfolding query_program
both-Products =
    Products.next (Pairs.skip refl (Pairs.skip refl Pairs.none_left))
      (Products.next (Pairs.pair refl (Pairs.skip refl Pairs.none_left)) Products.none_left)

join-Streams_example :
    (e : Iter (Join (Iter Fixed) (Iter Fixed))) × Streams
      (iterator (Join.join source source lower 3 3))
      (fresh (record { l_child = fresh at_start; r_child = fresh at_start; l_child_next = none }))
      (joined bob_record ann_record ∷ [])
      e
join-Streams_example =
    join-Streams source source lower 3 IsStart both both-Replays (omega arith) 3 (fresh at_start)
      both-Streams both-Products refl (omega arith)

insert-Streams_example :
    Streams
      (iterator (insert source (λ ts c. (c, ok tt)) 3))
      (fresh (record { child = fresh at_start; run = false }))
      (count_record 2 ∷ [])
      (fresh (record { child = fresh at_end; run = true }))
insert-Streams_example =
    insert-Streams source 3 (λ ts c. (c, ok tt)) both-Streams (omega arith) refl

abbrev people_groups : Groups
people_groups =
    (
      some (int_field (pos 1)) ∷ [],
      record { fields = some (int_field (pos 1)) ∷ []; group_size = 1 },
    )
    ∷ (
      some (int_field (negsuc 4)) ∷ [],
      record { fields = some (int_field (pos 1)) ∷ []; group_size = 1 },
    )
    ∷ []

grouped : group_all (AggregateType.count ∷ []) (pos 1 ∷ []) (pos 0 ∷ []) both [] ≡ ok people_groups
unfolding query_program
grouped = refl

group_all-total_example : group_total people_groups ≡ 2 + 0
group_all-total_example =
    group_all-total (AggregateType.count ∷ []) (pos 1 ∷ []) (pos 0 ∷ []) both [] people_groups
      grouped

-- A sort by the first column that was opened, and of which the first record was taken.
abbrev by_id : OpIterator (Iter (OrderBy (Iter Fixed)))
by_id = iterator (order_by (λ lt rs. rs) source Order.ascending (pos 0) 3)

abbrev opened : OrderBy (Iter Fixed)
opened =
    (by_id.open_it (fresh (record { child = fresh at_start; child_records = []; it = 0 }))).0.own

abbrev taken : Iter (OrderBy (Iter Fixed))
taken = fresh (record { child = fresh at_end; child_records = none ∷ some bob_record ∷ []; it = 1 })

child_read : opened.child ≡ fresh at_end
unfolding query_program
child_read = refl

first_taken : by_id.next (fresh opened) ≡ (taken, ok ann_record)
unfolding query_program
first_taken = refl

order_by-rewind_faults_example : (by_id.rewind taken).1 ≡ fault
order_by-rewind_faults_example =
    order_by-rewind_faults (λ lt rs. rs) source Order.ascending (pos 0) 3 opened taken ann_record
      (fresh at_start) (fresh at_end) both first_taken (ap source.rewind child_read ∙ at_end-rewind)
      both-Streams (omega arith) (omega arith)
