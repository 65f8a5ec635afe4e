-- ===== src/Execution/Aggregate/Results.antt =====
-- What aggregation comes to (komfydb/execution/aggregate.cc).
use mathlib.Core.Path.{fun_ext}
use komfy_db.Base.{
  Option, none, some, ℕ, zero, suc, ◌+◌, ◌<◌, ◌≡◌, refl, sym, ◌∙◌, ap, Bool, true, false, List, [],
  ◌∷◌, map, length, arith, if◌then◌else◌,
}
use komfy_db.Base.Int.{ℤ}
use komfy_db.Base.Status.{StatusOr, ok, ◌>>=◌, >>=-eq-ok, ok-injective}
use komfy_db.Common.Field.{Field, int_field, string_field}
use komfy_db.Common.Tuple.{Tuple, tuple_eq}
use komfy_db.Storage.Ids.{Record}
use komfy_db.Execution.Aggregator.{AggregateType, AggregateTuple, avg, sum, apply_aggregate}
use komfy_db.Execution.Iterator.{OpIterator}
use komfy_db.Execution.Iterator.Streams.{Streams}
use komfy_db.Execution.Aggregate.Prepare.{group_one, result_one, result_fields, iterate}
use komfy_db.Execution.Aggregate.{
  Groups, update_fields, update_group, initial_fields, initialize_group, group_id, into_groups,
  group_all, update_all, no_grouping,
}

apply_aggregate-avg : (old new : Field) → apply_aggregate avg old new ≡ apply_aggregate sum old new
unfolding apply_aggregate
apply_aggregate-avg (int_field old) (int_field new) = refl
apply_aggregate-avg (int_field old) (string_field new) = refl
apply_aggregate-avg (string_field old) new = refl

-- the list with every AVG replaced by SUM
abbrev pub as_sum : AggregateType → AggregateType
as_sum t = elim t [ AggregateType.avg ↦ sum | other ↦ other ]

apply_aggregate-as_sum :
    (t : AggregateType) (old new : Field)
    → apply_aggregate t old new ≡ apply_aggregate (as_sum t) old new
apply_aggregate-as_sum AggregateType.avg old new = apply_aggregate-avg old new
apply_aggregate-as_sum t old new = refl

update_fields-as_sum :
    (types : List AggregateType) (fields : List ℤ) (t group : Tuple)
    → update_fields types fields t group ≡ update_fields (map as_sum types) fields t group
unfolding update_fields
update_fields-as_sum types [] t group = refl
update_fields-as_sum [] (i ∷ fields) t group = refl
update_fields-as_sum (type ∷ types) (i ∷ fields) t [] = refl
update_fields-as_sum (AggregateType.avg ∷ types) (i ∷ fields) t (old ∷ group) =
    simp (apply_aggregate-avg, update_fields-as_sum types fields t group)
update_fields-as_sum (type ∷ types) (i ∷ fields) t (old ∷ group) =
    simp (update_fields-as_sum types fields t group)

initial_fields-as_sum :
    (types : List AggregateType) (fields : List ℤ) (t : Tuple)
    → initial_fields types fields t ≡ initial_fields (map as_sum types) fields t
unfolding initial_fields
initial_fields-as_sum types [] t = refl
initial_fields-as_sum [] (i ∷ fields) t = refl
initial_fields-as_sum (AggregateType.avg ∷ types) (i ∷ fields) t =
    simp (initial_fields-as_sum types fields t)
initial_fields-as_sum (type ∷ types) (i ∷ fields) t = simp (initial_fields-as_sum types fields t)

update_all-as_sum :
    (types : List AggregateType) (fields : List ℤ) (rs : List Record) (g : AggregateTuple)
    → update_all types fields rs g ≡ update_all (map as_sum types) fields rs g
unfolding update_all
update_all-as_sum types fields [] g = refl
update_all-as_sum types fields (r ∷ rs) g =
    simp (update_fields-as_sum types fields r.tuple g.fields) (
      ap
        (λ (f : AggregateTuple → StatusOr AggregateTuple).
          update_group (map as_sum types) fields r.tuple g >>= f)
        (fun_ext (λ g'. update_all-as_sum types fields rs g')))

-- Without GROUP BY every AVG gives what SUM gives: nothing divides by the number of records.
pub no_grouping_avg :
    (types : List AggregateType) (fields : List ℤ) (rs : List Record)
    → 0 < length rs
    → no_grouping types fields rs ≡ no_grouping (map as_sum types) fields rs
unfolding no_grouping
no_grouping_avg types fields [] h = elim h [ ]
no_grouping_avg types fields (r ∷ rs) h = simp (initial_fields-as_sum types fields r.tuple) (
    ap
      (λ (f : AggregateTuple → StatusOr AggregateTuple).
        initialize_group (map as_sum types) fields r.tuple >>= λ g.
        (f g >>= λ g'. ok (g'.fields ∷ [])))
      (fun_ext (update_all-as_sum types fields rs)))

-- the records that the groups count
abbrev pub group_total : Groups → ℕ
group_total [] = 0
group_total ((id, g) ∷ groups) = g.group_size + group_total groups

update_group-size :
    (types : List AggregateType) (fields : List ℤ) (t : Tuple) (g g' : AggregateTuple)
    → update_group types fields t g ≡ ok g'
    → g'.group_size ≡ suc g.group_size
unfolding update_group
update_group-size types fields t g g' h =
    let (fs, _, e) = >>=-eq-ok (update_fields types fields t g.fields) _ h in
    sym (ap (λ (x : AggregateTuple). x.group_size) (ok-injective e))

initialize_group-size :
    (types : List AggregateType) (fields : List ℤ) (t : Tuple) (g : AggregateTuple)
    → initialize_group types fields t ≡ ok g
    → g.group_size ≡ 1
unfolding initialize_group
initialize_group-size types fields t g h =
    let (fs, _, e) = >>=-eq-ok (initial_fields types fields t) _ h in
    sym (ap (λ (x : AggregateTuple). x.group_size) (ok-injective e))

into_groups-total :
    (types : List AggregateType) (fields : List ℤ) (id t : Tuple) (groups groups' : Groups)
    → into_groups types fields id t groups ≡ ok groups'
    → group_total groups' ≡ suc (group_total groups)
unfolding into_groups
into_groups-total types fields id t [] groups' h =
    let (g, made, e) = >>=-eq-ok (initialize_group types fields t) _ h in
    sym (ap group_total (ok-injective e))
    ∙ (omega (arith, initialize_group-size types fields t g made))
into_groups-total types fields id t ((id', g) ∷ groups) groups' h =
    let (same, _, h') = >>=-eq-ok (tuple_eq id' id) _ h in
    go same h' (λ rest. into_groups-total types fields id t groups rest)
  where
    go :
        (same : Bool)
        → (if same
            then (update_group types fields t g >>= λ g'. ok ((id', g') ∷ groups))
            else (into_groups types fields id t groups >>= λ rest. ok ((id', g) ∷ rest)))
          ≡ ok groups'
        → ((rest : Groups)
            → into_groups types fields id t groups ≡ ok rest
            → group_total rest ≡ suc (group_total groups))
        → group_total groups' ≡ suc (g.group_size + group_total groups)
    go true h ih =
        let (g', up, e) = >>=-eq-ok (update_group types fields t g) _ h in
        sym (ap group_total (ok-injective e))
        ∙ (omega (arith, update_group-size types fields t g g' up))
    go false h ih =
        let (rest, into, e) = >>=-eq-ok (into_groups types fields id t groups) _ h in
        sym (ap group_total (ok-injective e)) ∙ (omega (arith, ih rest into))

-- Grouping counts each record in exactly one group: the sizes of the groups add up to the number of
-- records.
pub group_all-total :
    (types : List AggregateType) (fields groupby : List ℤ) (rs : List Record)
    (groups groups' : Groups)
    → group_all types fields groupby rs groups ≡ ok groups'
    → group_total groups' ≡ length rs + group_total groups
unfolding group_all
group_all-total types fields groupby [] groups groups' h = rw (ok-injective h) (omega arith)
group_all-total types fields groupby (r ∷ rs) groups groups' h =
    let (id, _, h1) = >>=-eq-ok (group_id groupby r.tuple) _ h in
    let (mid, into, h2) = >>=-eq-ok (into_groups types fields id r.tuple groups) _ h1 in
    omega (
      arith,
      group_all-total types fields groupby rs mid groups' h2,
      into_groups-total types fields id r.tuple groups mid into,
    )

-- The loop over a child that streams records is the loop over these records.
pub iterate-Streams :
    {C : Type 0} (child : OpIterator C) (types : List AggregateType) (fields groupby : List ℤ)
    (fuel : ℕ) {c e : C} {rs : List Record} (groups groups' : Groups)
    → Streams child c rs e
    → length rs < fuel
    → group_all types fields groupby rs groups ≡ ok groups'
    → iterate child (group_one types fields groupby) fuel groups c ≡ (e, ok groups')
unfolding iterate group_all
iterate-Streams child types fields groupby zero groups groups' s lt h = absurd (omega arith)
iterate-Streams child types fields groupby (suc fuel) groups groups' (Streams.done _ h') lt h =
    rw (h', ok-injective h) refl
iterate-Streams child types fields groupby (suc fuel) {rs = r ∷ rs} groups groups'
      (Streams.more {c' = c'} _ _ next s) lt h =
    let (id, made, h1) = >>=-eq-ok (group_id groupby r.tuple) _ h in
    let (mid, into, h2) = >>=-eq-ok (into_groups types fields id r.tuple groups) _ h1 in
    rw (next, made, into)
      (iterate-Streams child types fields groupby fuel mid groups' s (omega arith) h2)

update_all-Streams :
    {C : Type 0} (child : OpIterator C) (types : List AggregateType) (fields : List ℤ) (fuel : ℕ)
    {c e : C} {rs : List Record} (g g' : AggregateTuple)
    → Streams child c rs e
    → length rs < fuel
    → update_all types fields rs g ≡ ok g'
    → iterate child (result_one types fields) fuel (some g) c ≡ (e, ok (some g'))
unfolding iterate update_all
update_all-Streams child types fields zero g g' s lt h = absurd (omega arith)
update_all-Streams child types fields (suc fuel) g g' (Streams.done _ h') lt h =
    rw (h', ok-injective h) refl
update_all-Streams child types fields (suc fuel) {rs = r ∷ rs} g g' (Streams.more _ _ next s) lt h =
    let (mid, up, h1) = >>=-eq-ok (update_group types fields r.tuple g) _ h in
    rw (next, up) (update_all-Streams child types fields fuel mid g' s (omega arith) h1)

-- The result without grouping over a child that streams records is that over these records.
pub no_grouping-Streams :
    {C : Type 0} (child : OpIterator C) (types : List AggregateType) (fields : List ℤ) (fuel : ℕ)
    {c e : C} {rs : List Record} (ts : List Tuple)
    → Streams child c rs e
    → length rs < fuel
    → no_grouping types fields rs ≡ ok ts
    → (g : Option AggregateTuple) × (iterate child (result_one types fields) fuel none c
        ≡ (e, ok g))
      × (ts ≡ result_fields types g ∷ [])
unfolding iterate no_grouping
no_grouping-Streams child types fields zero ts s lt h = absurd (omega arith)
no_grouping-Streams child types fields (suc fuel) ts (Streams.done _ h') lt h =
    (none, rw h' refl, sym (ok-injective h))
no_grouping-Streams child types fields (suc fuel) {rs = r ∷ rs} ts (Streams.more _ _ next s) lt h =
    let (g, made, h1) = >>=-eq-ok (initialize_group types fields r.tuple) _ h in
    let (g', up, h2) = >>=-eq-ok (update_all types fields rs g) _ h1 in
    (
      some g',
      rw (next, made) (update_all-Streams child types fields fuel g g' s (omega arith) up),
      sym (ok-injective h2),
    )
