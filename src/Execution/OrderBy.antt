-- ===== src/Execution/OrderBy.antt =====
-- Sorting: komfydb/execution/order_by.cc. `std::sort` is a parameter: of it the code relies on a
-- permutation in the order of the comparison.
pub mod Rewinding
use komfy_db.Base.{
  ℕ, zero, suc, Bool, true, false, List, [], ◌∷◌, ◌++◌, map, Option, none, some, length, get_elem?,
  set, if◌then◌else◌, ltb,
}
use komfy_db.Base.Int.{ℤ}
use komfy_db.Base.State.{State}
use komfy_db.Base.Status.{StatusOr, Status, ok, err, fault, no_fuel, out_of_range, ◌>>=◌, value}
use komfy_db.Common.Field.{Field, compare_fields}
use komfy_db.Common.Op.{Op, less_than, greater_than}
use komfy_db.Common.Tuple.{get_field}
use komfy_db.Common.TupleDesc.{TupleDesc, get_field_type}
use komfy_db.Storage.Ids.{Record}
use komfy_db.Execution.Iterator.{OpIterator, Operator}

pub data Order : Type 0 where
  ascending descending : Order

-- The check of `OrderBy::Create`.
unfoldable pub create : TupleDesc → ℤ → StatusOr (Unit {0})
create td order_by_field = do _ ← get_field_type td order_by_field; ok tt

-- `child_records`; a record that was moved out leaves a null pointer. `it` is an index.
pub record OrderBy (C : Type 0) : Type 0 where
  pub child : C
  pub child_records : List (Option Record)
  pub it : ℕ

-- `ITERATE_RECORDS`: all records of the child, and the status that ended the loop. At most `fuel`
-- records are taken.
unfoldable pub collect : {C : Type 0} → OpIterator C → ℕ → C → C × List Record × Status
collect o zero c = (c, [], no_fuel)
collect o (suc fuel) c =
    let (c', m) = o.next c in
    let (e, rest, status) = collect o fuel c' in
    elim m [
      | ok r ↦ (e, r ∷ rest, status)
      | err x ↦ (c', [], err x)
      | fault ↦ (c', [], fault)
      | no_fuel ↦ (c', [], no_fuel)
    ]

-- The key of a record in the comparison; the assertions want it to be there.
unfoldable pub key : ℤ → Option Record → StatusOr Field
key i none = fault
key i (some r) = value (get_field r.tuple i)

unfoldable pub all_keys : ℤ → List (Option Record) → StatusOr (List (Record × Field))
unfolding key
all_keys i [] = ok []
all_keys i (none ∷ rs) = fault
all_keys i (some r ∷ rs) = do f ← key i (some r); rest ← all_keys i rs; ok ((r, f) ∷ rest)

-- `comp` in the comparison of `Prepare`
abbrev pub comp : Order → Op
comp ascending = less_than
comp descending = greater_than

unfoldable pub before : Order → (Record × Field) → (Record × Field) → Bool
before o a b = elim (compare_fields (comp o) a.1 b.1) [ ok t ↦ t | _ ↦ false ]

-- All keys are of one type, so that no comparison fails an assertion.
unfoldable pub comparable : Order → List (Record × Field) → Bool
comparable o [] = true
comparable o (a ∷ []) = true
comparable o (a ∷ b ∷ rest) = elim (compare_fields (comp o) a.1 b.1) [
  | ok _ ↦ comparable o (b ∷ rest)
  | _ ↦ false
]

module _
    (std_sort : ((Record × Field) → (Record × Field) → Bool)
      → List (Record × Field)
      → List (Record × Field)) where
  -- `std::sort` of `Prepare`. With fewer than two records nothing is compared; with more, each is
  -- read by some comparison.
  unfoldable pub sort_records : Order → ℤ → List (Option Record) → StatusOr (List (Option Record))
  unfolding all_keys
  sort_records o i rs =
      if ltb (length rs) 2
      then ok rs
      else (all_keys i rs >>= λ keyed.
          if comparable o keyed
          then ok (map (λ a. some a.0) (std_sort (before o) keyed))
          else fault)

  module _ {C : Type 0} (child : OpIterator C) (o : Order) (order_by_field : ℤ) (fuel : ℕ) where
    abbrev finish : OrderBy C → Status → StatusOr (List (Option Record)) → OrderBy C × Status
    finish s (ok _) (ok sorted) = (record s { child_records = sorted; it = 0 }, ok tt)
    finish s (ok _) (err c) = (s, err c)
    finish s (ok _) fault = (s, fault)
    finish s (ok _) no_fuel = (s, no_fuel)
    finish s other sorted = (s, other)

    -- `RETURN_IF_NOT_OOR`
    abbrev if_not_oor : Status → Status
    if_not_oor (err out_of_range) = ok tt
    if_not_oor other = other

    -- `Prepare`: the child's records are added to those that are there.
    unfoldable pub prepare : State (OrderBy C) (Unit {0})
    unfolding collect sort_records
    prepare s =
        let (c, rs, status) = collect child fuel s.child in
        let all = s.child_records ++ map some rs in
        finish (record s { child = c; child_records = all }) (if_not_oor status)
          (sort_records o order_by_field all)

    abbrev pub then_prepare : OrderBy C → C × Status → OrderBy C × Status
    then_prepare s (c, ok _) = prepare (record s { child = c })
    then_prepare s (c, other) = (record s { child = c }, other)

    abbrev pub moved : OrderBy C → Option (Option Record) → OrderBy C × StatusOr Record
    moved s none = (s, err out_of_range)
    moved s (some none) = (record s { it = suc s.it }, fault)
    moved s (some (some r)) =
        (record s { it = suc s.it; child_records = set s.child_records s.it none }, ok r)

    -- `FetchNext`: the record moves out of `child_records`. A null one would be dereferenced later.
    unfoldable pub fetch : State (OrderBy C) Record
    fetch s = moved s (get_elem? s.child_records s.it)

    abbrev pub order_by : Operator (OrderBy C)
    order_by = record {
      open_own = λ s. then_prepare s (child.open_it s.child);
      rewind_own = λ s. then_prepare s (child.rewind s.child);
      resets = false;
      fetch_next = fetch;
    }
