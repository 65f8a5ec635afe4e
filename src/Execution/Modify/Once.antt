-- ===== src/Execution/Modify/Once.antt =====
-- Running an insertion or a deletion (komfydb/execution/insert.cc, delete.cc).
use komfy_db.Base.{ℕ, zero, suc, ◌<◌, ◌≡◌, refl, true, false, List, [], ◌∷◌, map, length, arith}
use komfy_db.Base.State.{State}
use komfy_db.Base.Status.{ok, err, out_of_range}
use komfy_db.Common.Tuple.{Tuple}
use komfy_db.Storage.Ids.{Record, RecordId}
use komfy_db.Execution.Iterator.{OpIterator, Iter, iterator, fresh, rewind_iter, next}
use komfy_db.Execution.Iterator.Streams.{Streams, Fetches, Fetches-Streams}
use komfy_db.Execution.OrderBy.{collect}
use komfy_db.Execution.Modify.{Modify, fetch, count_record, delete, insert}

-- All the records of a child that streams them are collected, and the loop ends out of range.
pub collect-Streams :
    {C : Type 0} (o : OpIterator C) (fuel : ℕ) {c e : C} {rs : List Record}
    → Streams o c rs e
    → length rs < fuel
    → collect o fuel c ≡ (e, rs, err out_of_range)
unfolding collect
collect-Streams o zero s h = absurd (omega arith)
collect-Streams o (suc fuel) (Streams.done _ g) h = ground arith
collect-Streams o (suc fuel) (Streams.more _ _ g s) h =
    ground (arith, collect-Streams o fuel s (omega arith))

module _ {C A : Type 0} (child : OpIterator C) (of_record : Record → A)
    (change : List A → State C (Unit {0})) (fuel : ℕ) where
  fetch-changed :
      (c e e' : C) (rs : List Record)
      → collect child fuel c ≡ (e, rs, err out_of_range)
      → change (map of_record rs) e ≡ (e', ok tt)
      → fetch child of_record change fuel (record { child = c; run = false })
        ≡ (record { child = e'; run = true }, ok (count_record (length rs)))
  unfolding fetch
  fetch-changed c e e' rs h g = ground arith

  fetch-run :
      (c : C)
      → fetch child of_record change fuel (record { child = c; run = true })
        ≡ (record { child = c; run = true }, err out_of_range)
  unfolding fetch
  fetch-run c = refl

module _ {C : Type 0} (child : OpIterator C) (fuel : ℕ) where
  -- Over a child that streams `rs`, an insertion that has not run hands the tuples of all of `rs` to
  -- `InsertTuples` in one call; where that succeeds it gives one record, their number, and then is
  -- out of range.
  pub insert-Streams :
      (insert_tuples : List Tuple → State C (Unit {0})) {c e e' : C} {rs : List Record}
      → Streams child c rs e
      → length rs < fuel
      → insert_tuples (map (λ r. r.tuple) rs) e ≡ (e', ok tt)
      → Streams
          (iterator (insert child insert_tuples fuel))
          (fresh (record { child = c; run = false }))
          (count_record (length rs) ∷ [])
          (fresh (record { child = e'; run = true }))
  insert-Streams insert_tuples {c} {e} {e'} {rs} s h g = Fetches-Streams (
      Fetches.more
        (fetch-changed child (λ r. r.tuple) insert_tuples fuel c e e' rs
          (collect-Streams child fuel s h) g)
        (Fetches.done (fetch-run child (λ r. r.tuple) insert_tuples fuel e')))

  -- A deletion that has run stays spent when it is rewound, though its message says otherwise.
  pub delete_spent :
      (remove_tuples : List RecordId → State C (Unit {0})) (c c' : C)
      → child.rewind c ≡ (c', ok tt)
      → let o = iterator (delete child remove_tuples fuel) in
        let s : Iter (Modify C) = fresh (record { child = c; run = true }) in
        (o.rewind s ≡ (fresh (record { child = c'; run = true }), ok tt))
        × (o.next (o.rewind s).0 ≡ (fresh (record { child = c'; run = true }), err out_of_range))
  unfolding rewind_iter next fetch
  delete_spent remove_tuples c c' h = (ground arith, ground arith)
