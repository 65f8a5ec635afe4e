-- ===== src/Execution/Modify.antt =====
-- Insertion and deletion: komfydb/execution/insert.cc and delete.cc. The buffer pool is shared with
-- the child, so it is part of the child's state.
pub mod Once
use komfy_db.Base.{
  ℕ, Bool, true, false, not, List, [], ◌∷◌, map, length, Option, some, if◌then◌else◌, Bytes, at?,
  bytes_eq, ◌&&◌,
}
use komfy_db.Base.Int.{pos, negsuc}
use komfy_db.Base.State.{State}
use komfy_db.Base.Status.{StatusOr, Status, ok, err, fault, no_fuel, out_of_range, invalid_argument}
use komfy_db.Common.Field.{int_field}
use komfy_db.Common.Tuple.{Tuple}
use komfy_db.Storage.Ids.{Record, RecordId}
use komfy_db.Execution.Iterator.{OpIterator, Operator}
use komfy_db.Execution.Join.{joined_record_id}
use komfy_db.Execution.OrderBy.{collect}

-- `inserted` or `deleted`
pub record Modify (C : Type 0) : Type 0 where
  pub child : C
  pub run : Bool

-- The aliases that `Delete::Create` accepts: all the same.
unfoldable pub same_alias : Bytes → List Bytes → Bool
same_alias a [] = true
same_alias a (b ∷ bs) = bytes_eq b a && same_alias a bs

unfoldable pub create_delete : List Bytes → Status
create_delete [] = ok tt
create_delete (a ∷ as') = if same_alias a (a ∷ as') then ok tt else err invalid_argument

-- The record with the count.
abbrev pub count_record : ℕ → Record
count_record n = record { tuple = some (int_field (pos n)) ∷ []; rid = joined_record_id }

module _ {C A : Type 0} (child : OpIterator C) (of_record : Record → A)
    (change : List A → State C (Unit {0})) (fuel : ℕ) where
  abbrev changed : ℕ → C × Status → Modify C × StatusOr Record
  changed n (c, ok _) = (record { child = c; run = true }, ok (count_record n))
  changed n (c, err e) = (record { child = c; run = true }, err e)
  changed n (c, fault) = (record { child = c; run = true }, fault)
  changed n (c, no_fuel) = (record { child = c; run = true }, no_fuel)

  abbrev gathered : C → List Record → Status → Modify C × StatusOr Record
  gathered c rs (err out_of_range) = changed (length rs) (change (map of_record rs) c)
  gathered c rs (err e) = (record { child = c; run = true }, err e)
  gathered c rs (ok _) = (record { child = c; run = true }, fault)
  gathered c rs fault = (record { child = c; run = true }, fault)
  gathered c rs no_fuel = (record { child = c; run = true }, no_fuel)

  -- `FetchNext` of both: all records are gathered, the change is made once, and the count is the
  -- only record.
  unfoldable pub fetch : State (Modify C) Record
  unfolding collect
  fetch s =
      let (c, rs, status) = collect child fuel s.child in
      let result = gathered c rs status in if s.run then (s, err out_of_range) else result

abbrev pub with_child : {C : Type 0} → Bool → C × Status → Modify C × Status
with_child b (c, r) = (record { child = c; run = b }, r)

-- `Insert`: `Rewind` resets `inserted`.
abbrev pub insert :
    {C : Type 0} → OpIterator C → (List Tuple → State C (Unit {0})) → ℕ → Operator (Modify C)
insert child insert_tuples fuel = record {
  open_own = λ s. with_child s.run (child.open_it s.child);
  rewind_own = λ s. with_child false (child.rewind s.child);
  resets = false;
  fetch_next = fetch child (λ r. r.tuple) insert_tuples fuel;
}

-- `Delete`: `Rewind` leaves `deleted` as it is.
abbrev pub delete :
    {C : Type 0} → OpIterator C → (List RecordId → State C (Unit {0})) → ℕ → Operator (Modify C)
delete child remove_tuples fuel = record {
  open_own = λ s. with_child s.run (child.open_it s.child);
  rewind_own = λ s. with_child s.run (child.rewind s.child);
  resets = false;
  fetch_next = fetch child (λ r. r.rid) remove_tuples fuel;
}
